-- ===== src/Controller/Snaps/Pages.antt =====
-- The pages of ListSnapshots: a token continues where its page ended, and tokens out of range.
use hostpath_provisioner.Base.{
  ℕ, ◌+◌, ◌-◌, ◌^◌, ◌≤◌, ◌<◌, pos, to_int64, bits64, ◌+ℤ◌, ◌≡◌, refl, ◌∙◌, ap, false, ltb, nat_beq,
  List, ◌∷◌, length, take, drop, some, Text, bytes, ◌==◌, text_eq, text_beq_iff, is_empty, returns,
  panics, arith, Bool-cases, inl, inr, if◌then◌else◌,
}
use hostpath_provisioner.Decimal.{parse_uint, format_int}
use hostpath_provisioner.Decimal.RoundTrip.{parse_uint-format_int, format_int-nonempty}
use hostpath_provisioner.Csi.{Snapshot, ListSnapshotsResponse}
use hostpath_provisioner.Controller.{slice}
use hostpath_provisioner.Controller.Listing.Pages.{slice_lem, page_stop}
use hostpath_provisioner.Controller.Snaps.{
  first_token, start_index, snapshot_end, snapshot_next_token, snapshot_page,
}

start_index_lem : (n : ℕ) → 0 < n → n < 2 ^ 32 → start_index n ≡ n - 1
start_index_lem n h k = omega arith

small : (n : ℕ) → n < 2 ^ 63 → to_int64 (pos n) ≡ pos n
unfolding to_int64 bits64
small n h = ground arith

-- The end of a page that begins at j, for numbers of 32 bits.
snapshot_end_lem :
    (j m n : ℕ)
    → j < 2 ^ 32
    → m < 2 ^ 32
    → n < 2 ^ 32
    → snapshot_end j (pos m) (pos n)
      ≡ pos (
          if ltb n (j + (if nat_beq m 0 then n else m))
          then n
          else j + (if nat_beq m 0 then n else m))
unfolding snapshot_end
snapshot_end_lem j m n h k l =
    ground (arith, small j (omega arith), small (j + n) (omega arith), small (j + m) (omega arith))

page_stop_within :
    (j m n : ℕ)
    → j < n
    → (if ltb n (j + (if nat_beq m 0 then n else m)) then n else j + (if nat_beq m 0 then n else m))
      ≡ page_stop j m n
unfolding page_stop
page_stop_within j m n h = ground arith

pub page_stop_range : (j m n : ℕ) → j < n → (j ≤ page_stop j m n) × (page_stop j m n ≤ n)
unfolding page_stop
page_stop_range j m n h = ground arith

pub first_token-format_int :
    (k : ℕ) → 0 < k → k < 2 ^ 32 → parse_uint (first_token (format_int (pos k))) ≡ some k
first_token-format_int k h l = elim (Bool-cases (format_int (pos k) == bytes "0")) [
  | inl e ↦
      let zero_read : parse_uint (bytes "0") ≡ some 0 = unfold parse_uint in refl in
      let same = ap parse_uint ((text_beq_iff (format_int (pos k)) (bytes "0")).0 e) in
      absurd (let q = parse_uint-format_int k l in ground arith)
  | inr e ↦ rw (format_int-nonempty k, e) (parse_uint-format_int k l)
]

-- A token is given where at least two snapshots are left.
pub next_token_given :
    (e n : ℕ)
    → is_empty (snapshot_next_token (pos e) (pos n)) ≡ false
    → (e + 1 < n) × (snapshot_next_token (pos e) (pos n) ≡ format_int (pos (e + 1)))
unfolding snapshot_next_token
next_token_given e n h = (
  ground arith,
  let sum : (pos e +ℤ pos 1) ≡ pos (e + 1) = ground arith in
      let printed = ap format_int sum in ground arith,
)

-- The page that begins behind the first j snapshots.
abbrev pub snapshots_from : List Snapshot → ℕ → ℕ → ListSnapshotsResponse
snapshots_from snapshots j m =
    let e = page_stop j m (length snapshots) in
    record {
      entries = take (e - j) (drop j snapshots);
      next_token = snapshot_next_token (pos e) (pos (length snapshots));
    }

module _ {S : Type 0} (x : Snapshot) (xs : List Snapshot) (short : length (x ∷ xs) < 2 ^ 32) where
  -- A page of ListSnapshots, with at least one and fewer than 2^32 snapshots and a limit from 0
  -- to 2^32 - 1: with a number from 1 to the number of snapshots as its token, or no token for 1,
  -- it returns the snapshots from that one on, as many as the limit says, all of them for 0.
  pub snapshot_page_lem :
      (token : Text) (n m : ℕ) (s : S)
      → parse_uint (first_token token) ≡ some n
      → 0 < n
      → n ≤ length (x ∷ xs)
      → m < 2 ^ 32
      → snapshot_page (x ∷ xs) token (pos m) s ≡ (returns (snapshots_from (x ∷ xs) (n - 1) m), s)
  unfolding snapshot_page
  snapshot_page_lem token n m s h k l b =
      let total = length (x ∷ xs) in
      let (low, high) = page_stop_range (n - 1) m total (omega arith) in
      let end : snapshot_end (n - 1) (pos m) (pos total) ≡ pos (page_stop (n - 1) m total) =
        snapshot_end_lem (n - 1) m total (omega arith) b short
        ∙ ap pos (page_stop_within (n - 1) m total (omega arith)) in
      ground (
        arith,
        start_index_lem n k (omega arith),
        end,
        slice_lem (x ∷ xs) (n - 1) (page_stop (n - 1) m total) low high,
      )

  -- With at least one and fewer than 2^32 snapshots and a limit from 0 to 2^32 - 1: a token of 32
  -- bits beyond the number of snapshots, by more than one, makes the page of ListSnapshots panic.
  pub snapshot_page_panics :
      (token : Text) (n m : ℕ) (s : S)
      → parse_uint (first_token token) ≡ some n
      → length (x ∷ xs) + 1 < n
      → n < 2 ^ 32
      → m < 2 ^ 32
      → snapshot_page (x ∷ xs) token (pos m) s ≡ (panics, s)
  unfolding snapshot_page slice
  snapshot_page_panics token n m s h k l b = ground (
    arith,
    start_index_lem n (omega arith) l,
    snapshot_end_lem (n - 1) m (length (x ∷ xs)) (omega arith) b short,
  )

  -- With fewer than 2^32 snapshots: where a page that begins at one of them has a token, the
  -- token leads, with any limit from 0 to 2^32 - 1, to the page that begins where that page
  -- ended.
  pub snapshot_page-next :
      (j m m' : ℕ) (s : S)
      → j < length (x ∷ xs)
      → m' < 2 ^ 32
      → is_empty (snapshots_from (x ∷ xs) j m).next_token ≡ false
      → snapshot_page (x ∷ xs) (snapshots_from (x ∷ xs) j m).next_token (pos m') s
        ≡ (returns (snapshots_from (x ∷ xs) (page_stop j m (length (x ∷ xs))) m'), s)
  snapshot_page-next j m m' s h b more =
      let n = length (x ∷ xs) in
      let e = page_stop j m n in
      let (within, token) = next_token_given e n more in
      rw token (
        snapshot_page_lem (format_int (pos (e + 1))) (e + 1) m' s
          (first_token-format_int (e + 1) (omega arith) (omega arith)) (omega arith) (omega arith) b
        ∙ ap (λ i. (returns (snapshots_from (x ∷ xs) i m'), s)) (omega arith))

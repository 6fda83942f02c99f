-- ===== src/Controller/Listing/Pages.antt =====
-- The pages of ListVolumes: where they begin and end, that no slice is out of range, and where the
-- tokens go wrong.
pub mod Tokens
use hostpath_provisioner.Base.{
  ℕ, zero, suc, ◌+◌, ◌-◌, ◌≤◌, ◌<◌, ℤ, pos, negsuc, ◌≡◌, ◌≢◌, refl, sym, ◌∙◌, ap, ◌⊎◌, inl, inr,
  Bool, true, false, ltb, nat_beq, List, [], ◌∷◌, length, take, drop, get_elem?, Option, none, some,
  Text, ◌==◌, text_eq, text_beq_iff, is_empty, Result, ok, err, Error, returns, fails, panics,
  arith, Bool-cases, Result-cases, ℤ-cases, if◌then◌else◌,
}
use hostpath_provisioner.Base.Dict.{Dict}
use hostpath_provisioner.FilePath.{base}
use hostpath_provisioner.Os.{Os}
use hostpath_provisioner.Csi.{ListVolumesRequest, ListVolumesResponse}
use hostpath_provisioner.Pools.{index_of_starting_token, index_from}
use hostpath_provisioner.Pools.Finding.{index_of_starting_token_bounds}
use hostpath_provisioner.Controller.{HostPathController, slice, capacity_map}
use hostpath_provisioner.Controller.Volumes.{get_volume_directories}
use hostpath_provisioner.Controller.Listing.{
  validate_list_volumes_request, check_starting_token, page_start, page_end, at_index,
  volume_entries, volume_next_token, list_page, list_directories, list_volumes,
}

-- Where a page ends that begins at j, of m entries at most (0: no limit), in a list of n.
unfoldable pub page_stop : ℕ → ℕ → ℕ → ℕ
page_stop j m n = if nat_beq m 0 then n else if ltb n (j + m) then n else j + m

page_end_lem : (j m n : ℕ) → j < n → page_end (pos j) (pos m) (pos n) ≡ pos (page_stop j m n)
unfolding page_end page_stop
page_end_lem j m n h = ground arith

page_stop_bounds : (j m n : ℕ) → j < n → (j ≤ page_stop j m n) × (page_stop j m n ≤ n)
unfolding page_stop
page_stop_bounds j m n h = ground arith

pub slice_lem :
    {A : Type 0} (xs : List A) (j e : ℕ)
    → j ≤ e
    → e ≤ length xs
    → slice xs (pos j) (pos e) ≡ some (take (e - j) (drop j xs))
unfolding slice
slice_lem xs j e h k = ground arith

-- The token for the next page, for a page that ends at e.
unfoldable pub next_token_of : List Text → ℕ → Text
next_token_of dirs e =
    if ltb (e + 1) (length dirs)
    then elim (get_elem? dirs e) [ none ↦ [] | some d ↦ base d ]
    else []

get_elem?-lt {ℓ} :
    {A : Type ℓ} (xs : List A) (i : ℕ) → i < length xs → (x : A) × (get_elem? xs i ≡ some x)
get_elem?-lt [] i h = absurd (omega arith)
get_elem?-lt (x ∷ xs) zero h = (x, refl)
get_elem?-lt (x ∷ xs) (suc i) h = get_elem?-lt xs i (omega arith)

module _ (O : Os) (hpc : HostPathController O.State) where
  volume_next_token_lem :
      (dirs : List Text) (e : ℕ) (s : O.State)
      → 0 < length dirs
      → volume_next_token O hpc dirs (pos e) s ≡ (returns (next_token_of dirs e), s)
  unfolding volume_next_token next_token_of
  volume_next_token_lem dirs e s h = elim (Bool-cases (ltb (e + 1) (length dirs))) [
    | inl more ↦ let (d, found) = get_elem?-lt dirs e (ground arith) in ground arith
    | inr last ↦ ground arith
  ]

  -- What the page of a token holds.
  abbrev pub page_response : Dict ℤ → List Text → ℕ → ℕ → O.State → ListVolumesResponse
  page_response capacities dirs j m s =
      let e = page_stop j m (length dirs) in
      record {
        entries = volume_entries O hpc capacities s (take (e - j) (drop j dirs));
        next_token = next_token_of dirs e;
      }

  list_page_lem :
      (capacities : Dict ℤ) (dirs : List Text) (token : Text) (j m : ℕ) (s : O.State)
      → page_start token dirs ≡ pos j
      → j < length dirs
      → list_page O hpc capacities dirs token (pos m) s
        ≡ (returns (page_response capacities dirs j m s), s)
  unfolding list_page
  list_page_lem capacities dirs token j m s h k =
      let n = length dirs in
      let (low, high) = page_stop_bounds j m n k in
      ground (
        arith,
        page_end_lem j m n k,
        slice_lem dirs j (page_stop j m n) low high,
        volume_next_token_lem dirs (page_stop j m n) s,
      )

  -- The first element of a list has an index.
  index_first : (d : Text) (dirs : List Text) → index_of_starting_token (base d) (d ∷ dirs) ≡ pos 0
  unfolding index_of_starting_token index_from
  index_first d dirs = ground (arith, text_beq_iff (base d) (base d))

  -- ListVolumes with an empty token starts at the first volume.
  list_first :
      (capacities : Dict ℤ) (d : Text) (dirs : List Text) (m : ℕ) (s : O.State)
      → list_directories O hpc capacities (d ∷ dirs) [] (pos m) s
        ≡ (returns (page_response capacities (d ∷ dirs) 0 m s), s)
  unfolding list_directories
  list_first capacities d dirs m s =
      list_page_lem capacities (d ∷ dirs) (base d) 0 m s (unfold page_start in index_first d dirs)
        (omega arith)

  list_page_total :
      (capacities : Dict ℤ) (dirs : List Text) (token : Text) (m : ℕ) (s : O.State)
      → ((list_page O hpc capacities dirs token (pos m) s).0 ≢ panics)
        × ((list_page O hpc capacities dirs token (pos m) s).1 ≡ s)
  list_page_total capacities dirs token m s = elim (index_of_starting_token_bounds token dirs) [
    | inl h ↦ unfold list_page page_start in (ground arith, ground arith)
    | inr (j, d, h, k, l, n) ↦
        let e = list_page_lem capacities dirs token j m s (unfold page_start in h) l in
        (ground arith, ground arith)
  ]

  list_directories_total :
      (capacities : Dict ℤ) (dirs : List Text) (token : Text) (m : ℕ) (s : O.State)
      → ((list_directories O hpc capacities dirs token (pos m) s).0 ≢ panics)
        × ((list_directories O hpc capacities dirs token (pos m) s).1 ≡ s)
  unfolding list_directories
  list_directories_total capacities [] token m s = (ground arith, ground arith)
  list_directories_total capacities (d ∷ dirs) token m s =
      list_page_total capacities (d ∷ dirs) (if is_empty token then base d else token) m s

  -- ListVolumes never panics, whatever the request, nil included, and the machine: no slice or
  -- index is out of range; and it changes nothing.
  pub list_volumes_total :
      (request : Option ListVolumesRequest) (s : O.State)
      → ((list_volumes O hpc request s).0 ≢ panics) × ((list_volumes O hpc request s).1 ≡ s)
  unfolding list_volumes validate_list_volumes_request
  list_volumes_total none s = (ground arith, ground arith)
  list_volumes_total (some req) s = elim (ℤ-cases req.max_entries) [
    | inr (m, neg) ↦ (ground arith, ground arith)
    | inl (m, num) ↦ elim (Result-cases (capacity_map O hpc.cfg.storage_pool_info [] s)) [
      | inr (e, p) ↦ (ground arith, ground arith)
      | inl (capacities, p) ↦ elim (Result-cases (get_volume_directories O hpc s)) [
        | inr (e, q) ↦ (ground arith, ground arith)
        | inl (dirs, q) ↦ elim (Result-cases (check_starting_token req.starting_token)) [
          | inr (e, r) ↦ (ground arith, ground arith)
          | inl (u, r) ↦
              let t = list_directories_total capacities dirs req.starting_token m s in
              (ground arith, ground arith)
        ]
      ]
    ]
  ]

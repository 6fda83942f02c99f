-- ===== src/Controller/Snaps/Walk.antt =====
-- A client of ListSnapshots that follows the tokens from page to page.
use hostpath_provisioner.Base.{
  pages_meet, ℕ, zero, suc, ◌+◌, ◌-◌, ◌^◌, ◌≤◌, ◌<◌, pos, ◌≡◌, refl, ◌∙◌, ap, ◌+ℤ◌, Outcome, Exec,
  continue, true, false, List, [], ◌∷◌, ◌++◌, length, take, drop, Option, none, some, Text,
  is_empty, returns, fails, panics, arith, Bool-cases, inl, inr, if◌then◌else◌,
}
use hostpath_provisioner.Base.Dict.{Dict}
use hostpath_provisioner.Decimal.{parse_uint, format_int}
use hostpath_provisioner.Decimal.RoundTrip.{format_int-nonempty}
use hostpath_provisioner.Os.{Os}
use hostpath_provisioner.Csi.{Snapshot, ListSnapshotsRequest, ListSnapshotsResponse}
use hostpath_provisioner.Snapshots.{SnapshotProvider}
use hostpath_provisioner.Controller.{HostPathController}
use hostpath_provisioner.Controller.Listing.Pages.{page_stop}
use hostpath_provisioner.Controller.Snaps.{
  first_token, snapshot_next_token, snapshots_for, collect_snapshots, list_snapshots,
}
use hostpath_provisioner.Controller.Snaps.Pages.{
  page_stop_range, next_token_given, first_token-format_int, snapshots_from, snapshot_page_lem,
}

abbrev pub with_token : ListSnapshotsRequest → Text → ListSnapshotsRequest
with_token req token = record req { starting_token = token }

-- The snapshots of all pages, where every call returns and the fuel is enough.
unfoldable pub follow :
    (O : Os)
    → HostPathController O.State
    → ℕ
    → ListSnapshotsRequest
    → O.State
    → Option (List Snapshot)
follow O hpc zero req s = none
follow O hpc (suc fuel) req s =
    let (result, s') = list_snapshots O hpc (some req) s in
    elim result [
      | returns page ↦
          let rest = follow O hpc fuel (with_token req page.next_token) s' in
          if is_empty page.next_token
          then some page.entries
          else elim rest [ none ↦ none | some more ↦ some (page.entries ++ more) ]
      | fails _ ↦ none
      | panics ↦ none
    ]

-- No token is given only where at most one snapshot is left.
no_token : (e n : ℕ) → is_empty (snapshot_next_token (pos e) (pos n)) ≡ true → n ≤ e + 1
unfolding snapshot_next_token
no_token e n h =
    let sum : (pos e +ℤ pos 1) ≡ pos (e + 1) = ground arith in
    let printed = ap format_int sum in let given = format_int-nonempty (e + 1) in ground arith

progress : (j m n : ℕ) → j < n → j < page_stop j m n
unfolding page_stop
progress j m n h = ground arith

module _ {S : Type 0} where
  continue_cong :
      {A B : Type 0} (r : Outcome A) (f g : A → Exec S B) (s : S)
      → ((a : A) → f a s ≡ g a s)
      → continue r f s ≡ continue r g s
  continue_cong (returns a) f g s h = h a
  continue_cong (fails e) f g s h = refl
  continue_cong panics f g s h = refl

  collect_snapshots-with_token :
      (providers : Dict (SnapshotProvider S)) (req : ListSnapshotsRequest) (token : Text)
      (found : List Snapshot) (s : S)
      → collect_snapshots providers (with_token req token) found s
        ≡ collect_snapshots providers req found s
  unfolding collect_snapshots snapshots_for
  collect_snapshots-with_token [] req token found s = refl
  collect_snapshots-with_token ((k, provider) ∷ providers) req token found s =
      let (r, s') = snapshots_for provider req s in
      continue_cong r (λ more. collect_snapshots providers (with_token req token) (found ++ more))
        (λ more. collect_snapshots providers req (found ++ more)) s'
        (λ more. collect_snapshots-with_token providers req token (found ++ more) s')

module _ (O : Os) (hpc : HostPathController O.State) (x : Snapshot) (xs : List Snapshot) (m : ℕ)
    (s : O.State) (short : length (x ∷ xs) < 2 ^ 32) (limit : m < 2 ^ 32) where
  abbrev all : List Snapshot
  all = x ∷ xs

  page_of :
      (req : ListSnapshotsRequest) (j : ℕ)
      → collect_snapshots hpc.snapshot_providers req [] s ≡ (returns all, s)
      → req.max_entries ≡ pos m
      → parse_uint (first_token req.starting_token) ≡ some (j + 1)
      → j < length all
      → list_snapshots O hpc (some req) s ≡ (returns (snapshots_from all j m), s)
  unfolding list_snapshots
  page_of req j found entries token h =
      rw (found, entries)
        (snapshot_page_lem x xs short req.starting_token (j + 1) m s token (omega arith)
            (omega arith) limit
          ∙ ap (λ i. (returns (snapshots_from all i m), s)) (omega arith))

  follow_last :
      (fuel : ℕ) (req : ListSnapshotsRequest) (page : ListSnapshotsResponse)
      → list_snapshots O hpc (some req) s ≡ (returns page, s)
      → is_empty page.next_token ≡ true
      → follow O hpc (suc fuel) req s ≡ some page.entries
  unfolding follow
  follow_last fuel req page h last = ground arith

  follow_more :
      (fuel : ℕ) (req : ListSnapshotsRequest) (page : ListSnapshotsResponse) (rest : List Snapshot)
      → list_snapshots O hpc (some req) s ≡ (returns page, s)
      → is_empty page.next_token ≡ false
      → follow O hpc fuel (with_token req page.next_token) s ≡ some rest
      → follow O hpc (suc fuel) req s ≡ some (page.entries ++ rest)
  unfolding follow
  follow_more fuel req page rest h more followed = ground arith

  follow_from :
      (fuel : ℕ) (req : ListSnapshotsRequest) (j : ℕ)
      → collect_snapshots hpc.snapshot_providers req [] s ≡ (returns all, s)
      → req.max_entries ≡ pos m
      → parse_uint (first_token req.starting_token) ≡ some (j + 1)
      → j < length all
      → length all ≤ fuel + j
      → (k : ℕ) × (follow O hpc fuel req s ≡ some (take (k - j) (drop j all)))
        × (j ≤ k)
        × (k ≤ length all)
        × (length all ≤ k + 1)
  follow_from zero req j found entries token h enough = absurd (omega arith)
  follow_from (suc fuel) req j found entries token h enough =
      let n = length all in
      let e = page_stop j m n in
      let forward = progress j m n h in
      let (low, high) = page_stop_range j m n h in
      let page = page_of req j found entries token h in
      elim (Bool-cases (is_empty (snapshots_from all j m).next_token)) [
        | inl last ↦ (
          e,
          follow_last fuel req (snapshots_from all j m) page last,
          low,
          high,
          no_token e n last,
        )
        | inr more ↦
            let (within, given) = next_token_given e n more in
            let next = with_token req (snapshots_from all j m).next_token in
            let (k, rest, after, top, bottom) =
              follow_from fuel next e
                (collect_snapshots-with_token hpc.snapshot_providers req _ [] s ∙ found) entries
                (rw given (first_token-format_int (e + 1) (omega arith) (omega arith)))
                (omega arith) (omega arith) in
            (
              k,
              follow_more fuel req (snapshots_from all j m) (take (k - e) (drop e all)) page more
                    rest
                  ∙ ap some (pages_meet j e k all low after),
              omega arith,
              top,
              bottom,
            )
      ]

  -- With one snapshot provider, so that there is one order of iteration, which returns at least one
  -- and fewer than 2^32 snapshots for a request and leaves the machine as it is, and with a limit
  -- from 0 to 2^32 - 1: a client that starts with no token and follows the tokens is done after at
  -- most as many calls of ListSnapshots as there are snapshots, none of which fails or panics, and
  -- has the snapshots in their order, each once, all of them or all but the last.
  pub follow_lem :
      (name : Text) (provider : SnapshotProvider O.State) (req : ListSnapshotsRequest)
      → hpc.snapshot_providers ≡ (name, provider) ∷ []
      → snapshots_for provider req s ≡ (returns all, s)
      → req.max_entries ≡ pos m
      → req.starting_token ≡ []
      → (k : ℕ) × (follow O hpc (length all) req s ≡ some (take k all))
        × (k ≤ length all)
        × (length all ≤ k + 1)
  unfolding collect_snapshots
  follow_lem name provider req one answered entries token =
      let found : collect_snapshots hpc.snapshot_providers req [] s ≡ (returns all, s) =
        rw one (ground arith) in
      let start : parse_uint (first_token req.starting_token) ≡ some 1 =
        rw token (unfold parse_uint in refl) in
      let (k, followed, _, top, bottom) =
        follow_from (length all) req 0 found entries start (omega arith) (omega arith) in
      let e : k - 0 ≡ k = omega arith in (k, followed ∙ ap (λ i. some (take i all)) e, top, bottom)

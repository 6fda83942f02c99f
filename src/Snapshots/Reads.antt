-- ===== src/Snapshots/Reads.antt =====
-- Reading snapshots changes nothing, and what is listed.
use hostpath_provisioner.Base.{
  ◌≡◌, refl, true, List, [], ◌∷◌, map, none, some, Text, text_eq, ok, returns, arith, Bool-cases,
  Result-cases, Outcome-cases, inl, inr, if◌then◌else◌, pair_eq,
}
use hostpath_provisioner.Os.{Os, DirEntry}
use hostpath_provisioner.Csi.{Snapshot}
use hostpath_provisioner.Snapshots.{
  Reflink, get_source_volume_id, get_snapshot_by_id, snapshots_of_entries, get_all_snapshots,
}

-- The names of the directories among the entries.
pub directory_names : List DirEntry → List Text
directory_names [] = []
directory_names (e ∷ entries) =
    let rest = directory_names entries in if e.is_dir then e.name ∷ rest else rest

module _ (O : Os) (r : Reflink) where
  pub get_snapshot_by_id_state : (id : Text) (s : O.State) → (get_snapshot_by_id O r id s).1 ≡ s
  unfolding get_snapshot_by_id get_source_volume_id
  get_snapshot_by_id_state id s = ground arith

  get_snapshot_by_id-id :
      (id : Text) (s s' : O.State) (snapshot : Snapshot)
      → get_snapshot_by_id O r id s ≡ (returns (some snapshot), s')
      → (snapshot.snapshot_id ≡ id) × (snapshot.ready_to_use ≡ true)
  unfolding get_snapshot_by_id get_source_volume_id
  get_snapshot_by_id-id id s s' snapshot h = (ground arith, ground arith)

  -- Every snapshot that is returned is ready.
  abbrev pub AllReady : List Snapshot → Type 0
  AllReady [] = Unit
  AllReady (x ∷ xs) = (x.ready_to_use ≡ true) × AllReady xs

  snapshots_of_entries_lem :
      (entries : List DirEntry) (s s' : O.State) (snapshots : List Snapshot)
      → snapshots_of_entries O r entries s ≡ (returns snapshots, s')
      → (s' ≡ s)
        × (map (λ x. x.snapshot_id) snapshots ≡ directory_names entries)
        × AllReady snapshots
  unfolding snapshots_of_entries directory_names
  snapshots_of_entries_lem [] s s' snapshots h =
      let e : ◌≡◌ {A = List Snapshot} [] snapshots = ground arith in
      rw (← e) (ground arith, refl, tt)
  snapshots_of_entries_lem (e ∷ entries) s s' snapshots h = elim (Bool-cases e.is_dir) [
    | inr file ↦
        let (a, b, c) = snapshots_of_entries_lem entries s s' snapshots (ground arith) in
        (a, rw file b, c)
    | inl is_dir ↦
        let call = get_snapshot_by_id O r e.name s in
        let unchanged = get_snapshot_by_id_state e.name s in
        elim (Outcome-cases call.0) [
          | inr (inl (x, p)) ↦ absurd (ground arith)
          | inr (inr p) ↦ absurd (ground arith)
          | inl (none, p) ↦ absurd (ground arith)
          | inl (some found, p) ↦
              let rest = snapshots_of_entries O r entries s in
              elim (Outcome-cases rest.0) [
                | inr (inl (x, q)) ↦ absurd (ground arith)
                | inr (inr q) ↦ absurd (ground arith)
                | inl (others, q) ↦
                    let (a, b, c) =
                      snapshots_of_entries_lem entries s rest.1 others (pair_eq rest q refl) in
                    let described =
                      get_snapshot_by_id-id e.name s call.1 found (pair_eq call p refl) in
                    let whole : found ∷ others ≡ snapshots = ground arith in
                    (
                      ground arith,
                      rw (← whole, is_dir, described.0, b) refl,
                      rw (← whole) (described.1, c),
                    )
              ]
        ]
  ]

  -- GetAllSnapshots, where it returns a list: it changes nothing, and the list holds one snapshot
  -- for each directory in the provider's directory, under its name and in its order, all ready.
  pub get_all_snapshots_lem :
      (s s' : O.State) (snapshots : List Snapshot)
      → get_all_snapshots O r s ≡ (returns snapshots, s')
      → (entries : List DirEntry) × (O.read_dir r.path s ≡ ok entries)
        × (s' ≡ s)
        × (map (λ x. x.snapshot_id) snapshots ≡ directory_names entries)
        × AllReady snapshots
  unfolding get_all_snapshots
  get_all_snapshots_lem s s' snapshots h = elim (Result-cases (O.read_dir r.path s)) [
    | inr (e, p) ↦ absurd (ground arith)
    | inl (entries, p) ↦
        let (a, b, c) = snapshots_of_entries_lem entries s s' snapshots (ground arith) in
        (entries, p, a, b, c)
  ]

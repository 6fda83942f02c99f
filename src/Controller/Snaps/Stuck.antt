-- ===== src/Controller/Snaps/Stuck.antt =====
-- A snapshot directory with no entry for its volume.
use hostpath_provisioner.Base.{
  ◌≡◌, ◌≢◌, true, List, [], ◌∷◌, ◌++◌, none, some, Text, bytes, text_eq, text_beq_iff, ◌==◌, ok,
  Error, errorf, message, returns, fails, arith, Bool-cases, Outcome-cases, inl, inr,
}
use hostpath_provisioner.Base.Dict.{lookup}
use hostpath_provisioner.FilePath.{join}
use hostpath_provisioner.Os.{Os, DirEntry, FileInfo, StoragePoolInfo}
use hostpath_provisioner.Os.Laws.{has_directory}
use hostpath_provisioner.Csi.{Snapshot, CreateSnapshotRequest}
use hostpath_provisioner.Pools.{get_storage_pool_name_from_map, check_path_exist}
use hostpath_provisioner.Snapshots.{
  Reflink, reflink_provider, source_entry, get_source_volume_id, describe_snapshot,
  get_snapshot_by_id, snapshots_of_entries, get_all_snapshots,
}
use hostpath_provisioner.Snapshots.Reads.{get_snapshot_by_id_state}
use hostpath_provisioner.Controller.{HostPathController}
use hostpath_provisioner.Controller.Snaps.{
  validate_create_snapshot_request, ensure_initialized, find_or_create, create_snapshot_in_pool,
  controller_create_snapshot,
}

abbrev pub no_source : Text → Error
no_source id = errorf (bytes "source volume not found for snapshot " ++ id)

module _ (O : Os) (r : Reflink) where
  -- The directory of the snapshot, and its entries.
  pub record IsStuck (id : Text) (s : O.State) : Type 0 where
    pub info : FileInfo
    pub entries : List DirEntry
    pub found : O.stat (join (r.path ∷ id ∷ [])) s ≡ ok info
    pub is_dir : info.is_dir ≡ true
    pub listed : O.read_dir (join (r.path ∷ id ∷ [])) s ≡ ok entries
    pub no_entry : source_entry entries ≡ none

  get_snapshot_by_id_stuck :
      (id : Text) (s : O.State)
      → IsStuck id s
      → get_snapshot_by_id O r id s ≡ (fails (no_source id), s)
  unfolding get_snapshot_by_id describe_snapshot get_source_volume_id
  get_snapshot_by_id_stuck id s k =
      let found = k.found in
      let is_dir = k.is_dir in let listed = k.listed in let no_entry = k.no_entry in ground arith

  entries_stuck :
      (id : Text) (s : O.State) (entries : List DirEntry) (snapshots : List Snapshot)
      → get_snapshot_by_id O r id s ≡ (fails (no_source id), s)
      → has_directory id entries ≡ true
      → (snapshots_of_entries O r entries s).0 ≢ returns snapshots
  unfolding snapshots_of_entries has_directory
  entries_stuck id s [] snapshots h k = absurd (ground arith)
  entries_stuck id s (f ∷ entries) snapshots h k = elim (Bool-cases f.is_dir) [
    | inr file ↦ λ e. entries_stuck id s entries snapshots h (ground arith) (ground arith)
    | inl is_dir ↦ elim (Bool-cases (f.name == id)) [
      | inl same ↦ λ e.
          let name = (text_beq_iff f.name id).0 same in
          let g : get_snapshot_by_id O r f.name s ≡ (fails (no_source id), s) = rw name h in
          absurd (ground arith)
      | inr other ↦
          let unchanged = get_snapshot_by_id_state O r f.name s in
          elim (Outcome-cases (get_snapshot_by_id O r f.name s).0) [
            | inr (inl (x, p)) ↦ λ e. absurd (ground arith)
            | inr (inr p) ↦ λ e. absurd (ground arith)
            | inl (none, p) ↦ λ e. absurd (ground arith)
            | inl (some found, p) ↦ λ e.
                elim (Outcome-cases (snapshots_of_entries O r entries s).0) [
                  | inr (inl (x, q)) ↦ absurd (ground arith)
                  | inr (inr q) ↦ absurd (ground arith)
                  | inl (others, q) ↦ entries_stuck id s entries others h (ground arith) q
                ]
          ]
    ]
  ]

  get_all_snapshots_stuck :
      (id : Text) (s : O.State) (files : List DirEntry) (snapshots : List Snapshot)
      → IsStuck id s
      → O.read_dir r.path s ≡ ok files
      → has_directory id files ≡ true
      → (get_all_snapshots O r s).0 ≢ returns snapshots
  unfolding get_all_snapshots
  get_all_snapshots_stuck id s files snapshots k listed there =
      λ e. entries_stuck id s files snapshots (get_snapshot_by_id_stuck id s k) there (ground arith)

-- Where a pool has a snapshot directory with no entry for its volume, a CreateSnapshot of that name
-- that passes its checks, with the pool's directory of snapshots there, fails and changes nothing,
-- however often it is repeated, and GetAllSnapshots of the pool's provider returns no list.
pub controller_create_snapshot-IsStuck :
    (O : Os) (hpc : HostPathController O.State) (r : Reflink) (req : CreateSnapshotRequest)
    (pool : StoragePoolInfo) (path : Text) (s : O.State) (files : List DirEntry)
    (snapshots : List Snapshot)
    → validate_create_snapshot_request (some req) ≡ ok tt
    → lookup (get_storage_pool_name_from_map req.parameters) hpc.cfg.storage_pool_info ≡ some pool
    → pool.snapshot_path ≡ some path
    → lookup (get_storage_pool_name_from_map req.parameters) hpc.snapshot_providers
      ≡ some (reflink_provider O r)
    → check_path_exist O path s ≡ ok true
    → IsStuck O r req.name s
    → O.read_dir r.path s ≡ ok files
    → has_directory req.name files ≡ true
    → (controller_create_snapshot O hpc (some req) s
        ≡ (fails (errorf (bytes "getsnapshot by id failed, " ++ message (no_source req.name))), s))
      × ((get_all_snapshots O r s).0 ≢ returns snapshots)
unfolding controller_create_snapshot create_snapshot_in_pool ensure_initialized find_or_create
controller_create_snapshot-IsStuck O hpc r req pool path s files snapshots valid found has_path
      provider there stuck listed among =
    let failed = get_snapshot_by_id_stuck O r req.name s stuck in
    (ground arith, get_all_snapshots_stuck O r req.name s files snapshots stuck listed among)

-- ===== src/Snapshots.antt =====
-- pkg/hostpath/reflink.go: the interface of a snapshot provider, and the provider that copies with
-- `cp --reflink=auto`. A snapshot `id` of volume `v` is the directory path/id with the two children
-- `data` (the copy) and `v` (empty, its name is all that it is for).
pub mod Contract
pub mod Keeping
pub mod Reads
pub mod Retried
pub mod Writes
use hostpath_provisioner.Base.{
  ℤ, pos, Text, bytes, ◌==◌, text_eq, Bool, true, false, not, ◌||◌, List, [], ◌∷◌, ◌++◌, Option,
  none, some, Result, ok, err, Error, status, errorf, message, is_not_exist, not_found,
  if◌then◌else◌, Exec, pure, fail, panic, read, perform, gets, ◌>>=◌, ◌>>◌,
}
use hostpath_provisioner.FilePath.{join}
use hostpath_provisioner.Os.{Os, FileInfo, DirEntry}
use hostpath_provisioner.Csi.{Snapshot, Timestamp}
use hostpath_provisioner.Pools.{check_path_exist}

-- The interface SnapshotProvider, over the state of the machine.
pub record SnapshotProvider (S : Type 0) : Type 0 where
  pub initialize : Exec S (Unit {0})
  pub get_snapshot_by_id : Text → Exec S (Option Snapshot)
  pub get_snapshots_by_volume_source_id : Text → Exec S (List Snapshot)
  pub get_all_snapshots : Exec S (List Snapshot)
  pub create_snapshot : Text → Text → Exec S Snapshot
  pub delete_snapshot : Text → Exec S (Unit {0})
  pub restore_snapshot : Text → Text → Exec S (Unit {0})

pub record Reflink : Type 0 where
  pub node_name : Text
  pub path : Text
  pub source_path : Text

abbrev pub data_path : Text
data_path = bytes "data"

-- The first directory that is not `data`.
unfoldable pub source_entry : List DirEntry → Option Text
source_entry [] = none
source_entry (entry ∷ entries) =
    let rest = source_entry entries in
    if not entry.is_dir || entry.name == data_path then rest else some entry.name

unfoldable pub of_volume : Text → List Snapshot → List Snapshot
of_volume volume_source_id [] = []
of_volume volume_source_id (snapshot ∷ snapshots) =
    let rest = of_volume volume_source_id snapshots in
    if snapshot.source_volume_id == volume_source_id then snapshot ∷ rest else rest

module _ (O : Os) where
  -- cp -rp --reflink=auto src dst
  unfoldable pub reflink_copy : Text → Text → O.State → Result (Unit {0}) × O.State
  reflink_copy src dst s =
      let (r, s') =
        O.run_command (bytes "cp") (bytes "-rp" ∷ bytes "--reflink=auto" ∷ src ∷ dst ∷ []) s in
      (
        elim r [
          | ok _ ↦ ok tt
          | err e ↦ err (
              errorf
                (bytes "failed to copy " ++ src ++ bytes " to " ++ dst ++ bytes ": " ++ message e))
        ],
        s',
      )

  unfoldable pub ensure_path_exists : Text → Exec O.State (Unit {0})
  ensure_path_exists path = perform (O.mkdir_all path 0o755)

module _ (O : Os) (r : Reflink) where
  unfoldable pub initialize : Exec O.State (Unit {0})
  unfolding ensure_path_exists
  initialize = ensure_path_exists O r.path

  unfoldable pub get_source_volume_id : Text → Exec O.State Text
  unfolding source_entry
  get_source_volume_id snapshot_id = do
    entries ← read (O.read_dir (join (r.path ∷ snapshot_id ∷ [])))
    elim (source_entry entries) [
      | some name ↦ pure name
      | none ↦ fail (errorf (bytes "source volume not found for snapshot " ++ snapshot_id))
    ]

  -- The part of GetSnapshotById behind the tests of os.Stat's error.
  unfoldable pub describe_snapshot : Text → FileInfo → Exec O.State (Option Snapshot)
  describe_snapshot snapshot_id info =
      if not info.is_dir
      then fail (
          errorf (bytes "file " ++ join (r.path ∷ snapshot_id ∷ []) ++ bytes " is not a directory"))
      else do
        source_volume_id ← get_source_volume_id snapshot_id
        pure (
            some (record {
              snapshot_id = snapshot_id;
              source_volume_id = source_volume_id;
              creation_time = record { seconds = info.ctim_sec; nanos = info.ctim_nsec };
              ready_to_use = true;
            }))

  unfoldable pub get_snapshot_by_id : Text → Exec O.State (Option Snapshot)
  unfolding describe_snapshot
  get_snapshot_by_id snapshot_id = do
    found ← gets (O.stat (join (r.path ∷ snapshot_id ∷ [])))
    elim found [
      | err e ↦ if is_not_exist e then pure none else fail e
      | ok info ↦ describe_snapshot snapshot_id info
    ]

  -- The loop over the entries; a snapshot that is gone again is a nil pointer, and panics.
  unfoldable pub snapshots_of_entries : List DirEntry → Exec O.State (List Snapshot)
  snapshots_of_entries [] = pure []
  snapshots_of_entries (entry ∷ entries) =
      let rest = snapshots_of_entries entries in
      if not entry.is_dir then rest else do
        snapshot ← get_snapshot_by_id entry.name
        elim snapshot [ none ↦ panic | some found ↦ do others ← rest; pure (found ∷ others) ]

  unfoldable pub get_all_snapshots : Exec O.State (List Snapshot)
  unfolding snapshots_of_entries
  get_all_snapshots = do entries ← read (O.read_dir r.path); snapshots_of_entries entries

  unfoldable pub get_snapshots_by_volume_source_id : Text → Exec O.State (List Snapshot)
  unfolding of_volume
  get_snapshots_by_volume_source_id volume_source_id = do
    snapshots ← get_all_snapshots
    pure (of_volume volume_source_id snapshots)

  unfoldable pub create_snapshot_from_dir : Text → Text → Text → Exec O.State Snapshot
  create_snapshot_from_dir snapshot_id source_volume_id path = do
    creation_time ← read (O.stat_ctim path)
    pure (record {
      snapshot_id = snapshot_id;
      source_volume_id = source_volume_id;
      creation_time = record { seconds = creation_time; nanos = pos 0 };
      ready_to_use = true;
    })

  -- The part of CreateSnapshot behind the test that the source volume exists.
  unfoldable pub copy_volume : Text → Text → Text → Exec O.State Snapshot
  copy_volume snapshot_id source_volume_id source_pool_dir = do
    let snapshot_dir = join (r.path ∷ snapshot_id ∷ data_path ∷ [])
    let source_dir = join (r.path ∷ snapshot_id ∷ source_volume_id ∷ [])
    snapshot_exists ← read (check_path_exist O snapshot_dir)
    if snapshot_exists
        then create_snapshot_from_dir snapshot_id source_volume_id snapshot_dir
        else do
          perform (O.mkdir_all snapshot_dir 0o755)
          perform (O.mkdir_all source_dir 0o755)
          perform (reflink_copy O (source_pool_dir ++ bytes "/.") snapshot_dir)
          create_snapshot_from_dir snapshot_id source_volume_id snapshot_dir

  unfoldable pub create_snapshot : Text → Text → Exec O.State Snapshot
  unfolding copy_volume
  create_snapshot snapshot_id source_volume_id = do
    let source_pool_dir = join (r.source_path ∷ source_volume_id ∷ [])
    exists ← read (check_path_exist O source_pool_dir)
    if exists
        then copy_volume snapshot_id source_volume_id source_pool_dir
        else fail (
            errorf (
              bytes "source volume "
              ++ source_pool_dir
              ++ bytes " not found, unable to create snapshot"))

  unfoldable pub delete_snapshot : Text → Exec O.State (Unit {0})
  delete_snapshot snapshot_id = do
    let snap_path = join (r.path ∷ snapshot_id ∷ [])
    exists ← read (check_path_exist O snap_path)
    if exists then perform (O.remove_all snap_path) else pure tt

  -- The part of RestoreSnapshot behind the test that the snapshot exists.
  unfoldable pub copy_back : Text → Text → Exec O.State (Unit {0})
  copy_back snap_path target_path = do
    target_exists ← read (check_path_exist O target_path)
    if target_exists
        then perform (reflink_copy O (snap_path ++ bytes "/.") target_path)
        else fail (errorf (bytes "target path " ++ target_path ++ bytes " does not exist"))

  unfoldable pub restore_snapshot : Text → Text → Exec O.State (Unit {0})
  unfolding copy_back
  restore_snapshot snapshot_id target_path = do
    let snap_path = join (r.path ∷ snapshot_id ∷ data_path ∷ [])
    exists ← read (check_path_exist O snap_path)
    if exists
        then copy_back snap_path target_path
        else fail (
            status not_found (
              bytes "snapshot "
              ++ snapshot_id
              ++ bytes " not found, unable to restore into volume"))

  -- *Reflink as a SnapshotProvider
  abbrev pub reflink_provider : SnapshotProvider O.State
  reflink_provider = record {
    initialize = initialize;
    get_snapshot_by_id = get_snapshot_by_id;
    get_snapshots_by_volume_source_id = get_snapshots_by_volume_source_id;
    get_all_snapshots = get_all_snapshots;
    create_snapshot = create_snapshot;
    delete_snapshot = delete_snapshot;
    restore_snapshot = restore_snapshot;
  }

-- ===== src/Controller/Snaps.antt =====
-- CreateSnapshot, DeleteSnapshot and ListSnapshots.
pub mod Delete
pub mod Pages
pub mod Walk
pub mod Stuck
use hostpath_provisioner.Base.{
  ℕ, ◌+◌, ◌-◌, ◌%◌, ◌^◌, ℤ, pos, ◌+ℤ◌, ◌-ℤ◌, ltb_ℤ, beq_ℤ, to_int64, Text, bytes, ◌==◌, text_eq,
  is_empty, Bool, true, false, not, ◌||◌, List, [], ◌∷◌, ◌++◌, length, Option, none, some, Result,
  ok, err, Error, status, errorf, message, already_exists, aborted, if◌then◌else◌, Exec, pure, fail,
  lift, deref, read, try, ◌>>=◌, ◌>>◌,
}
use hostpath_provisioner.Base.Dict.{Dict, lookup}
use hostpath_provisioner.Decimal.{parse_uint, format_int}
use hostpath_provisioner.Os.{Os, StoragePoolInfo}
use hostpath_provisioner.Csi.{
  Snapshot, CreateSnapshotRequest, ListSnapshotsRequest, ListSnapshotsResponse,
}
use hostpath_provisioner.Pools.{Config, get_storage_pool_name_from_map, check_path_exist}
use hostpath_provisioner.Snapshots.{SnapshotProvider}
use hostpath_provisioner.Controller.{HostPathController, slice, Providers}
use hostpath_provisioner.Controller.Volumes.{invalid}

unfoldable pub validate_create_snapshot_request : Option CreateSnapshotRequest → Result (Unit {0})
validate_create_snapshot_request none = err (invalid (bytes "missing snapshot request"))
validate_create_snapshot_request (some req) =
    if is_empty req.name
    then err (invalid (bytes "name missing in snapshot request"))
    else if is_empty req.source_volume_id
    then err (invalid (bytes "source volume id missing in snapshot request"))
    else ok tt

-- snapshots[start:end] of a request, and its next token. An empty token and "0" stand for "1".
abbrev pub first_token : Text → Text
first_token token = if is_empty token || token == bytes "0" then bytes "1" else token

-- start - 1 on a uint64
abbrev pub start_index : ℕ → ℕ
start_index n = (n + 2 ^ 64 - 1) % 2 ^ 64

unfoldable pub snapshot_end : ℕ → ℤ → ℤ → ℤ
snapshot_end start max_entries total =
    let max_length = if beq_ℤ max_entries (pos 0) then total else max_entries in
    let end = to_int64 (to_int64 (pos start) +ℤ max_length) in
    if ltb_ℤ total end then total else end

unfoldable pub snapshot_next_token : ℤ → ℤ → Text
snapshot_next_token end total = if ltb_ℤ end (total -ℤ pos 1) then format_int (end +ℤ pos 1) else []

module _ {S : Type 0} where
  -- The part of ListSnapshots behind the loop over the providers.
  unfoldable pub snapshot_page : List Snapshot → Text → ℤ → Exec S ListSnapshotsResponse
  snapshot_page [] token max_entries =
      if is_empty token
      then pure (record { entries = []; next_token = [] })
      else fail (status aborted (bytes "snapshot " ++ token ++ bytes " not found"))
  snapshot_page (x ∷ xs) token max_entries = elim (parse_uint (first_token token)) [
    | none ↦ fail (status aborted (bytes "the type of startingToken should be integer"))
    | some n ↦ do
      let total = pos (length (x ∷ xs))
      let end = snapshot_end (start_index n) max_entries total
      page ← deref (slice (x ∷ xs) (pos (start_index n)) end)
      pure (record { entries = page; next_token = snapshot_next_token end total })
  ]

  -- What one provider has for a request.
  unfoldable pub snapshots_for : SnapshotProvider S → ListSnapshotsRequest → Exec S (List Snapshot)
  snapshots_for provider req =
      if not (is_empty req.snapshot_id)
      then (do
        snapshot ← provider.get_snapshot_by_id req.snapshot_id
        elim snapshot [ none ↦ pure [] | some found ↦ pure (found ∷ []) ])
      else if not (is_empty req.source_volume_id)
      then provider.get_snapshots_by_volume_source_id req.source_volume_id
      else provider.get_all_snapshots

  -- The loop over the providers, in the order in which one call iterates over their map. Go takes
  -- another order at the next call, and the snapshots are not sorted.
  unfoldable pub collect_snapshots :
      Dict (SnapshotProvider S) → ListSnapshotsRequest → List Snapshot → Exec S (List Snapshot)
  collect_snapshots [] req found = pure found
  collect_snapshots ((k, provider) ∷ providers) req found = do
    more ← snapshots_for provider req
    collect_snapshots providers req (found ++ more)

  unfoldable pub delete_everywhere : Dict (SnapshotProvider S) → Text → Exec S (Unit {0})
  delete_everywhere [] snapshot_id = pure tt
  delete_everywhere ((k, provider) ∷ providers) snapshot_id = do
    provider.delete_snapshot snapshot_id
    delete_everywhere providers snapshot_id

  -- The part of CreateSnapshot behind the initialisation: the snapshot of that name, or a new one.
  unfoldable pub find_or_create : SnapshotProvider S → Text → Text → Exec S Snapshot
  find_or_create provider name source_volume_id = do
    found ← try (provider.get_snapshot_by_id name)
    elim found [
      | err e ↦ fail (errorf (bytes "getsnapshot by id failed, " ++ message e))
      | ok none ↦ provider.create_snapshot name source_volume_id
      | ok (some snapshot) ↦
          if snapshot.source_volume_id == source_volume_id
          then pure snapshot
          else fail (
              status already_exists (
                bytes "snapshot with the same name: "
                ++ name
                ++ bytes " but with different SourceVolumeId already exist"))
    ]

module _ (O : Os) (hpc : HostPathController O.State) where
  open hpc use {cfg, snapshot_providers}

  -- The provider is initialised where its directory is not there.
  unfoldable pub ensure_initialized : SnapshotProvider O.State → Text → Exec O.State (Unit {0})
  ensure_initialized provider snapshot_path = do
    exists ← read (check_path_exist O snapshot_path)
    if exists then pure tt else do
      made ← try (provider.initialize)
      elim made [
        | ok _ ↦ pure tt
        | err e ↦ fail (errorf (bytes "failed to initialize snapshot storage pool " ++ message e))
      ]

  -- CreateSnapshot in the pool of the request.
  unfoldable pub create_snapshot_in_pool :
      CreateSnapshotRequest → Text → StoragePoolInfo → Exec O.State Snapshot
  create_snapshot_in_pool req storage_pool_name pool = elim pool.snapshot_path [
    | none ↦
        fail (errorf (bytes "volumesnapshot path not set for storage pool " ++ storage_pool_name))
    | some snapshot_path ↦ elim (lookup storage_pool_name snapshot_providers) [
      | none ↦
          fail (errorf (bytes "snapshot provider not set for storage pool " ++ storage_pool_name))
      | some provider ↦ do
        ensure_initialized provider snapshot_path
        find_or_create provider req.name req.source_volume_id
    ]
  ]

  unfoldable pub controller_create_snapshot : Option CreateSnapshotRequest → Exec O.State Snapshot
  controller_create_snapshot request = do
    lift (validate_create_snapshot_request request)
    req ← deref request
    let storage_pool_name = get_storage_pool_name_from_map req.parameters
    elim (lookup storage_pool_name cfg.storage_pool_info) [
      | none ↦ fail (
          errorf
            (bytes "unable to locate volumesnapshot path for storage pool " ++ storage_pool_name))
      | some pool ↦ create_snapshot_in_pool req storage_pool_name pool
    ]

  -- The request is its snapshot id.
  unfoldable pub controller_delete_snapshot : Option Text → Exec O.State (Unit {0})
  controller_delete_snapshot none = fail (invalid (bytes "missing request"))
  controller_delete_snapshot (some snapshot_id) =
      if is_empty snapshot_id
      then fail (invalid (bytes "snapshot id missing in request"))
      else delete_everywhere snapshot_providers snapshot_id

  unfoldable pub list_snapshots : Option ListSnapshotsRequest → Exec O.State ListSnapshotsResponse
  list_snapshots none = fail (invalid (bytes "missing request"))
  list_snapshots (some req) = do
    snapshots ← collect_snapshots snapshot_providers req []
    snapshot_page snapshots req.starting_token req.max_entries

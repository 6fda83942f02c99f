-- ===== src/Controller/History.antt =====
-- The controller service as a whole: its calls in a row, what each of them may take away, and the
-- volumes that a client may count on.
pub mod Spared
pub mod Keeping
pub mod Handlers
pub mod Queries
pub mod Served
pub mod Made
pub mod Ledger
use hostpath_provisioner.Base.{
  Text, ◌==◌, text_eq, Bool, true, false, not, ◌&&◌, ◌||◌, List, [], ◌∷◌, ◌++◌, Option, none, some,
  if◌then◌else◌, Exec, pure, ◌>>=◌, ◌>>◌, Outcome, returns, fails, panics,
}
use hostpath_provisioner.Base.Dict.{Dict}
use hostpath_provisioner.FilePath.{join}
use hostpath_provisioner.Os.{Os, StoragePoolInfo}
use hostpath_provisioner.Os.Frame.{covers}
use hostpath_provisioner.Csi.{
  CreateVolumeRequest, Volume, ValidateVolumeCapabilitiesRequest, Confirmed, GetCapacityResponse,
  ListVolumesRequest, ListVolumesResponse, VolumeEntry, CreateSnapshotRequest, Snapshot,
  ListSnapshotsRequest, ListSnapshotsResponse, VolumeContentSource, snapshot_source,
}
use hostpath_provisioner.Pools.{Config, get_storage_pool_name_from_map, pool_path}
use hostpath_provisioner.Controller.{HostPathController}
use hostpath_provisioner.Controller.Volumes.{
  create_volume, delete_volume, validate_volume_capabilities, get_capacity,
}
use hostpath_provisioner.Controller.Listing.{list_volumes, controller_get_volume}
use hostpath_provisioner.Controller.Snaps.{
  controller_create_snapshot, controller_delete_snapshot, list_snapshots,
}

-- A call of the controller service with its request.
pub data Call : Type 0 where
  create_volume_call : Option CreateVolumeRequest → Call
  delete_volume_call : Option Text → Call
  validate_call : ValidateVolumeCapabilitiesRequest → Call
  get_capacity_call : Option (Dict Text) → Call
  list_volumes_call : Option ListVolumesRequest → Call
  get_volume_call : Option Text → Call
  create_snapshot_call : Option CreateSnapshotRequest → Call
  delete_snapshot_call : Option Text → Call
  list_snapshots_call : Option ListSnapshotsRequest → Call

-- What it returns.
pub data Reply : Type 0 where
  created : Volume → Reply
  confirmed : Confirmed → Reply
  capacity : GetCapacityResponse → Reply
  volumes : ListVolumesResponse → Reply
  volume : VolumeEntry → Reply
  snapshot : Snapshot → Reply
  snapshots : ListSnapshotsResponse → Reply
  done : Reply

abbrev pub answer : {S A : Type 0} → (A → Reply) → Exec S A → Exec S Reply
answer reply m = do a ← m; pure (reply a)

module _ (O : Os) (hpc : HostPathController O.State) where
  unfoldable pub handle : Call → Exec O.State Reply
  handle (create_volume_call req) = answer created (create_volume O hpc req)
  handle (delete_volume_call req) = answer (λ _. done) (delete_volume O hpc req)
  handle (validate_call req) = answer confirmed (validate_volume_capabilities O hpc req)
  handle (get_capacity_call req) = answer capacity (get_capacity O hpc req)
  handle (list_volumes_call req) = answer volumes (list_volumes O hpc req)
  handle (get_volume_call req) = answer volume (controller_get_volume O hpc req)
  handle (create_snapshot_call req) = answer snapshot (controller_create_snapshot O hpc req)
  handle (delete_snapshot_call req) = answer (λ _. done) (controller_delete_snapshot O hpc req)
  handle (list_snapshots_call req) = answer snapshots (list_snapshots O hpc req)

  -- The machine behind a history of calls, whether they succeed or fail.
  unfoldable pub serve : List Call → O.State → O.State
  unfolding handle
  serve [] s = s
  serve (call ∷ calls) s = serve calls (handle call s).1

unfoldable pub volume_paths : Dict StoragePoolInfo → Text → List Text
volume_paths [] id = []
volume_paths ((k, info) ∷ pools) id = join (info.path ∷ id ∷ []) ∷ volume_paths pools id

unfoldable pub snapshot_paths : Dict StoragePoolInfo → Text → List Text
snapshot_paths [] id = []
snapshot_paths ((k, info) ∷ pools) id =
    let rest = snapshot_paths pools id in
    elim info.snapshot_path [ none ↦ rest | some path ↦ join (path ∷ id ∷ []) ∷ rest ]

-- The paths that a call may remove: those of the volume or snapshot that is to be deleted, in any
-- pool, and that of a volume that is created from a snapshot.
unfoldable pub may_remove : Config → Call → List Text
unfolding volume_paths snapshot_paths
may_remove cfg (create_volume_call (some req)) = elim req.volume_content_source [
  | some (snapshot_source _) ↦
      join (pool_path cfg (get_storage_pool_name_from_map req.parameters) ∷ req.name ∷ []) ∷ []
  | _ ↦ []
]
may_remove cfg (delete_volume_call (some id)) = volume_paths cfg.storage_pool_info id
may_remove cfg (delete_snapshot_call (some id)) = snapshot_paths cfg.storage_pool_info id
may_remove cfg _ = []

-- None of the paths may cover the other.
unfoldable pub spares : List Text → Text → Bool
spares [] p = true
spares (q ∷ qs) p = not (covers q p) && spares qs p

-- None of the calls may remove the path.
unfoldable pub all_spare : Config → List Call → Text → Bool
unfolding may_remove spares
all_spare cfg [] p = true
all_spare cfg (call ∷ calls) p = spares (may_remove cfg call) p && all_spare cfg calls p

-- The volumes that a client may count on, by the elements of their paths.
abbrev pub Accounts : Type 0
Accounts = List (List Text)

-- A call takes away what it may remove.
unfoldable pub strike : List Text → Accounts → Accounts
unfolding spares
strike removed [] = []
strike removed (ps ∷ accounts) =
    let rest = strike removed accounts in if spares removed (join ps) then ps ∷ rest else rest

-- A CreateVolume that has returned adds its volume.
unfoldable pub enter : Config → Call → Outcome Reply → Accounts → Accounts
unfolding pool_path
enter cfg (create_volume_call (some req)) (returns reply) accounts =
    (pool_path cfg (get_storage_pool_name_from_map req.parameters) ∷ req.name ∷ []) ∷ accounts
enter cfg call result accounts = accounts

-- The contract, as a machine of its own: it sees the calls and their results, and no file system.
unfoldable pub account : Config → List (Call × Outcome Reply) → Accounts → Accounts
unfolding strike enter may_remove
account cfg [] accounts = accounts
account cfg ((call, result) ∷ history) accounts =
    account cfg history (enter cfg call result (strike (may_remove cfg call) accounts))

-- The calls with their results.
module _ (O : Os) (hpc : HostPathController O.State) where
  unfoldable pub history : List Call → O.State → List (Call × Outcome Reply)
  unfolding handle
  history [] s = []
  history (call ∷ calls) s =
      let (result, s') = handle O hpc call s in (call, result) ∷ history calls s'

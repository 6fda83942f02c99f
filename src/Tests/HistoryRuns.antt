-- ===== src/Tests/HistoryRuns.antt =====
-- The controller's calls in a row.
use hostpath_provisioner.Base.{
  ℕ, true, Text, ◌≡◌, refl, bytes, false, List, [], ◌∷◌, none, some, ok, pos, returns,
}
use hostpath_provisioner.Csi.{
  CreateVolumeRequest, snapshot_source, CreateSnapshotRequest, NodePublishVolumeRequest,
  mount_volume,
}
use hostpath_provisioner.Node.Mount.{node_publish_volume}
use hostpath_provisioner.Node.Publish.{IsMountRequest}
use hostpath_provisioner.Driver.Published.{node_publish_volume-create_volume}
use hostpath_provisioner.FilePath.{join}
use hostpath_provisioner.Os.Memory.{memory-IsLawful}
use hostpath_provisioner.Os.Frame.{memory-IsFramed, covers}
use hostpath_provisioner.Pools.{check_path_exist}
use hostpath_provisioner.Controller.Volumes.{create_volume}
use hostpath_provisioner.Controller.Volumes.Create.{the_volume}
use hostpath_provisioner.Controller.Snaps.{controller_delete_snapshot}
use hostpath_provisioner.Controller.Snaps.Delete.{controller_delete_snapshot-escapes}
use hostpath_provisioner.Controller.History.{
  Call, create_volume_call, delete_volume_call, create_snapshot_call, delete_snapshot_call, serve,
  history, account, handle, volume_paths, snapshot_paths, may_remove, spares, all_spare, strike,
  enter,
}
use hostpath_provisioner.Controller.History.Ledger.{AllThere, account-AllThere, create_volume-serve}
use hostpath_provisioner.Os.Frame.{Present}
use hostpath_provisioner.Controller.Parallel.{
  Worker, create_starts, delete_starts, find_pool, find_directory, advance, step_at, interleave,
  response, restore_source, drop_volume,
}
use hostpath_provisioner.Controller.Parallel.Volumes.{interleave-Present}
use hostpath_provisioner.Tests.Compute.{everything}
use hostpath_provisioner.Tests.Data.{
  machine, config, controller_on, fresh, create_request, parameters, pool, reflink,
}

abbrev snapshot_request : CreateSnapshotRequest
snapshot_request = record {
  name = bytes "snap-1";
  source_volume_id = bytes "pvc-1";
  parameters = parameters;
}

-- A snapshot of the volume is made and deleted, and another volume deleted.
abbrev later_calls : List Call
later_calls =
    create_snapshot_call (some snapshot_request)
    ∷ delete_snapshot_call (some (bytes "snap-1"))
    ∷ delete_volume_call (some (bytes "pvc-2"))
    ∷ []

abbrev calls : List Call
calls = create_volume_call (some (create_request none)) ∷ later_calls

account-AllThere_example :
    AllThere machine
      ((bytes "/data" ∷ bytes "pvc-1" ∷ []) ∷ [])
      (serve machine (controller_on machine) calls fresh)
unfolding everything handle serve history account strike enter may_remove spares volume_paths
    snapshot_paths covers
account-AllThere_example =
    account-AllThere machine (memory-IsLawful 100 10) (memory-IsFramed 100 10) config
      (controller_on machine) refl (refl, tt) calls [] fresh tt

create_volume-serve_example :
    create_volume machine
      (controller_on machine)
      (some (create_request none))
      (serve machine (controller_on machine) later_calls (bytes "/data/pvc-1" ∷ fresh))
    ≡ (
      returns (the_volume machine (controller_on machine) (create_request none) pool (pos 409600)),
      serve machine (controller_on machine) later_calls (bytes "/data/pvc-1" ∷ fresh),
    )
unfolding everything the_volume handle serve all_spare may_remove spares volume_paths snapshot_paths
    covers
create_volume-serve_example =
    create_volume-serve machine (memory-IsLawful 100 10) (memory-IsFramed 100 10) config
      (controller_on machine) refl (refl, tt) (create_request none) pool later_calls fresh
      (bytes "/data/pvc-1" ∷ fresh)
      (the_volume machine (controller_on machine) (create_request none) pool (pos 409600))
      (pos 409600) (refl, refl) refl refl refl refl refl

controller_delete_snapshot-escapes_example :
    (controller_delete_snapshot machine
        (controller_on machine)
        (some (bytes "../data/pvc-1"))
        (bytes "/data/pvc-1" ∷ fresh)
      ≡ (returns tt, fresh))
    × (check_path_exist machine (join (bytes "/data" ∷ bytes "pvc-1" ∷ [])) fresh ≡ ok false)
unfolding everything
controller_delete_snapshot-escapes_example =
    controller_delete_snapshot-escapes machine (memory-IsLawful 100 10) (controller_on machine)
      (bytes "local") (bytes "../data/pvc-1") (bytes "/data") (bytes "pvc-1") reflink
      (bytes "/data/pvc-1" ∷ fresh) fresh refl refl refl refl refl

-- Another volume, from a snapshot.
abbrev from_snapshot : CreateVolumeRequest
from_snapshot = record (create_request (some (snapshot_source (some (bytes "snap-1"))))) {
  name = bytes "pvc-3";
}

-- Two calls of CreateVolume for one volume, a DeleteVolume for another, and a CreateVolume from a
-- snapshot that is not there for a third.
abbrev overlapping : List Worker
overlapping =
    create_starts (create_request none)
    ∷ create_starts (create_request none)
    ∷ delete_starts (bytes "pvc-2")
    ∷ create_starts from_snapshot
    ∷ []

-- Both calls see that the directory is missing, and both make it.
abbrev order : List ℕ
order = 0 ∷ 1 ∷ 0 ∷ 1 ∷ 2 ∷ 0 ∷ 1 ∷ 3 ∷ 2 ∷ 3 ∷ 0 ∷ 1 ∷ 3 ∷ 3 ∷ 3 ∷ []

interleave-Present_example :
    Present machine
      (bytes "/data/pvc-1")
      (interleave machine (controller_on machine) order overlapping fresh).1
unfolding everything find_pool find_directory advance step_at interleave covers spares volume_paths
    restore_source drop_volume may_remove
interleave-Present_example =
    interleave-Present machine (memory-IsLawful 100 10) (memory-IsFramed 100 10)
      (controller_on machine) config refl (refl, tt) (create_request none)
      (response machine (controller_on machine) (create_request none) pool (pos 409600)) 1 order
      overlapping fresh (refl, (refl, (refl, (refl, tt)))) refl

abbrev publish : NodePublishVolumeRequest
publish = record {
  volume_id = bytes "pvc-1";
  target_path = bytes "/pods/1";
  volume_capability = some (mount_volume (record { fs_type = []; mount_flags = [] }));
  readonly = true;
  volume_context = parameters;
}

publish-IsMountRequest : IsMountRequest publish
publish-IsMountRequest = record {
  has_id = refl;
  has_target = refl;
  capability = (record { fs_type = []; mount_flags = [] }, refl);
}

-- The volume, and a target directory.
abbrev with_target : List Text
with_target = bytes "/data/pvc-1" ∷ bytes "/pods/1" ∷ fresh

node_publish_volume-create_volume_example :
    (check_path_exist machine
        (join (bytes "/data" ∷ bytes "pvc-1" ∷ []))
        (serve machine (controller_on machine) later_calls with_target)
      ≡ ok true)
    × (node_publish_volume machine config
          (some publish)
          (serve machine (controller_on machine) later_calls with_target)
        ≡ (returns tt, serve machine (controller_on machine) later_calls with_target))
unfolding everything the_volume handle serve all_spare may_remove spares volume_paths snapshot_paths
    covers
node_publish_volume-create_volume_example =
    node_publish_volume-create_volume machine (memory-IsLawful 100 10) (memory-IsFramed 100 10)
      config (controller_on machine) refl (refl, tt) (create_request none) pool later_calls publish
      (bytes "/pods/1" ∷ fresh) with_target
      (serve machine (controller_on machine) later_calls with_target)
      (the_volume machine (controller_on machine) (create_request none) pool (pos 409600)) true
      (refl, refl) refl refl refl refl publish-IsMountRequest refl refl refl refl refl

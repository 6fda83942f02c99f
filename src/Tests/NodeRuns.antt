-- ===== src/Tests/NodeRuns.antt =====
-- The node: mounting, unmounting, health.
use hostpath_provisioner.Base.{
  Text, bytes, ◌≡◌, refl, ◌↔◌, true, false, List, [], ◌∷◌, some, ok, err, Error, errorf, returns,
}
use hostpath_provisioner.FilePath.{base}
use hostpath_provisioner.Os.{Os}
use hostpath_provisioner.Os.Memory.{memory, memory-IsLawful}
use hostpath_provisioner.Csi.{NodePublishVolumeRequest, NodeUnpublishVolumeRequest, mount_volume}
use hostpath_provisioner.Pools.{check_path_exist}
use hostpath_provisioner.Health.{do_health_check_in_controller_side}
use hostpath_provisioner.Health.Verdicts.{HasSpace, do_health_check_in_controller_side_iff}
use hostpath_provisioner.Node.Mount.{node_publish_volume}
use hostpath_provisioner.Node.Unmount.{node_unpublish_volume}
use hostpath_provisioner.Node.Publish.{IsMountRequest, node_publish_volume_pool}
use hostpath_provisioner.Node.Unpublish.{node_unpublish_volume_pool, node_unpublish_volume_csi}
use hostpath_provisioner.Tests.Compute.{everything}
use hostpath_provisioner.Tests.Data.{machine, config, fresh, parameters}

abbrev publish : NodePublishVolumeRequest
publish = record {
  volume_id = bytes "pvc-1";
  target_path = bytes "/pods/1";
  volume_capability = some (mount_volume (record { fs_type = []; mount_flags = [] }));
  readonly = true;
  volume_context = parameters;
}

publish-IsMountRequest : IsMountRequest publish
publish-IsMountRequest = record {
  has_id = refl;
  has_target = refl;
  capability = (record { fs_type = []; mount_flags = [] }, refl);
}

-- A target directory that is not a mount point yet, and the volume.
abbrev with_target : List Text
with_target = bytes "/pods/1" ∷ bytes "/data/pvc-1" ∷ fresh

-- A machine where a mount leaves a mark.
abbrev mounts : Os
mounts = record (memory 100 10) {
  mount = λ source target fs_type options s. (ok tt, (bytes "mounted") ∷ s);
}

node_publish_volume_pool_example :
    node_publish_volume mounts config (some publish) with_target
    ≡ (returns tt, bytes "mounted" ∷ with_target)
node_publish_volume_pool_example =
    node_publish_volume_pool mounts config publish with_target (bytes "mounted" ∷ with_target) true
      publish-IsMountRequest (unfold everything in refl) (unfold everything in refl) refl

abbrev busy : Error
busy = errorf (bytes "device is busy")

-- A machine where a mount fails and the target is gone behind it.
abbrev no_mount : Os
no_mount = record (memory 100 10) { mount = λ source target fs_type options s. (err busy, fresh) }

abbrev unpublish : Text → NodeUnpublishVolumeRequest
unpublish id = record { volume_id = id; target_path = bytes "/pods/1" }

node_unpublish_volume_pool_example :
    node_unpublish_volume machine config (some (unpublish (bytes "pvc-1"))) with_target
    ≡ (returns tt, bytes "/data/pvc-1" ∷ fresh)
unfolding everything
node_unpublish_volume_pool_example =
    node_unpublish_volume_pool machine config (unpublish (bytes "pvc-1")) with_target with_target
      (bytes "/data/pvc-1" ∷ fresh) true refl refl refl refl refl refl

-- A volume that was created under a name that begins with "csi".
abbrev with_csi : List Text
with_csi = bytes "/pods/1" ∷ bytes "/data/csi-home" ∷ fresh

node_unpublish_volume_csi_example :
    (node_unpublish_volume machine config (some (unpublish (bytes "csi-home"))) with_csi
      ≡ (returns tt, fresh))
    × (base (bytes "/data/csi-home") ≡ bytes "csi-home")
    × (check_path_exist machine (bytes "/data/csi-home") fresh ≡ ok false)
unfolding everything
node_unpublish_volume_csi_example =
    node_unpublish_volume_csi machine config (memory-IsLawful 100 10) (unpublish (bytes "csi-home"))
      with_csi with_csi (bytes "/data/csi-home" ∷ fresh) fresh true (bytes "/data/csi-home" ∷ [])
      (refl, tt) refl refl refl refl refl refl refl refl refl

do_health_check_in_controller_side_iff_example :
    (do_health_check_in_controller_side machine (bytes "/data/pvc-1") with_target ≡ (true, [])) ↔ (
      (check_path_exist machine (bytes "/data/pvc-1") with_target ≡ ok true)
      × HasSpace machine (bytes "/data/pvc-1") with_target)
do_health_check_in_controller_side_iff_example =
    do_health_check_in_controller_side_iff machine (bytes "/data/pvc-1") with_target

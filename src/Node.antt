-- ===== src/Node.antt =====
-- pkg/hostpath/nodeserver.go: the node service.
pub mod Mount
pub mod Publish
pub mod Unmount
pub mod Unpublish
use hostpath_provisioner.Base.{
  ℤ, Text, bytes, ◌==◌, text_eq, is_empty, has_prefix, Bool, true, false, not, List, [], ◌∷◌, ◌++◌,
  Option, none, some, Result, ok, err, Error, status, errorf, message, is_not_exist, not_found,
  unimplemented, if◌then◌else◌, Exec, pure, fail, panic, lift, deref, read, gets, try, attempt,
  perform, ◌>>=◌, ◌>>◌,
}
use hostpath_provisioner.Base.Dict.{Dict, lookup, value_or_empty}
use hostpath_provisioner.FilePath.{join, base, dir}
use hostpath_provisioner.Os.{Os, FileInfo}
use hostpath_provisioner.Csi.{
  VolumeCapability, block_volume, mount_volume, no_access_type, Topology, NodePublishVolumeRequest,
  NodeUnpublishVolumeRequest, NodeGetVolumeStatsRequest, NodeGetVolumeStatsResponse, usage_bytes,
  usage_inodes,
}
use hostpath_provisioner.Capacity.{get_pv_stats, FsInfo}
use hostpath_provisioner.Health.{do_health_check_in_node_side}
use hostpath_provisioner.Pools.{
  Config, get_storage_pool_name_from_map, pool_path, get_storage_pool_data_directories,
  create_volume_directory, delete_volume_directory, find_volume,
}
use hostpath_provisioner.Controller.{topology_key_node, not_supported}
use hostpath_provisioner.Controller.Volumes.{invalid}

abbrev pub ephemeral_context_key : Text
ephemeral_context_key = bytes "csi.storage.k8s.io/ephemeral"

unfoldable pub validate_request_capabilities : Option NodePublishVolumeRequest → Result (Unit {0})
validate_request_capabilities none = err (invalid (bytes "missing request"))
validate_request_capabilities (some req) =
    if is_empty req.volume_id
    then err (invalid (bytes "volume ID not provided"))
    else if is_empty req.target_path
    then err (invalid (bytes "target path not provided"))
    else elim req.volume_capability [
      | none ↦ err (invalid (bytes "volume capability not provided"))
      | some _ ↦ ok tt
    ]

-- The access type that validateNodePublishRequest accepts.
check_access : Option VolumeCapability → Result (Unit {0})
check_access none = err (invalid (bytes "can only publish a non-block volume"))
check_access (some block_volume) =
    err (invalid (bytes "cannot publish a non-block volume as block volume"))
check_access (some no_access_type) = err (invalid (bytes "can only publish a non-block volume"))
check_access (some (mount_volume _)) = ok tt

unfoldable pub validate_node_publish_request : Option NodePublishVolumeRequest → Result (Unit {0})
unfolding validate_request_capabilities check_access
validate_node_publish_request none = validate_request_capabilities none
validate_node_publish_request (some req) = elim (validate_request_capabilities (some req)) [
  | err e ↦ err e
  | ok _ ↦ check_access req.volume_capability
]

-- req.GetVolumeCapability().GetMount().GetFsType()
unfoldable pub fs_type_of : Option VolumeCapability → Text
fs_type_of (some (mount_volume m)) = m.fs_type
fs_type_of (some block_volume) = []
fs_type_of (some no_access_type) = []
fs_type_of none = []

unfoldable pub mount_options : Bool → List Text
mount_options readonly = bytes "bind" ∷ (if readonly then bytes "ro" ∷ [] else [])

unfoldable pub is_ephemeral_volume_request : NodePublishVolumeRequest → Bool
is_ephemeral_volume_request req =
    value_or_empty ephemeral_context_key req.volume_context == bytes "true"

unfoldable pub is_ephemeral_volume_id : Text → Bool
unfolding has_prefix
is_ephemeral_volume_id volume_id = has_prefix volume_id (bytes "csi")

unfoldable pub get_ephemeral_volume_path : Config → Text → Text → Text
get_ephemeral_volume_path cfg storage_pool_name volume_id =
    let storage_pool_path = pool_path cfg storage_pool_name in
    join (
      (if is_empty storage_pool_path
        then pool_path cfg cfg.default_storage_pool_name
        else storage_pool_path)
      ∷ volume_id
      ∷ [])

unfoldable pub validate_node_unpublish_request :
    Option NodeUnpublishVolumeRequest → Result (Unit {0})
validate_node_unpublish_request none = err (invalid (bytes "volume ID not provided"))
validate_node_unpublish_request (some req) =
    if is_empty req.volume_id
    then err (invalid (bytes "volume ID not provided"))
    else if is_empty req.target_path
    then err (invalid (bytes "target path not provided"))
    else ok tt

unfoldable pub validate_node_get_volume_stats_request :
    Option NodeGetVolumeStatsRequest → Result (Unit {0})
validate_node_get_volume_stats_request none = err (invalid (bytes "volume ID not provided"))
validate_node_get_volume_stats_request (some req) =
    if is_empty req.volume_id
    then err (invalid (bytes "volume ID not provided"))
    else if is_empty req.volume_path
    then err (invalid (bytes "volume path not provided"))
    else ok tt

module _ (O : Os) where
  unfoldable pub node_get_volume_stats :
      Option NodeGetVolumeStatsRequest → Exec O.State NodeGetVolumeStatsResponse
  node_get_volume_stats request = do
    lift (validate_node_get_volume_stats_request request)
    req ← deref request
    found ← gets (O.stat req.volume_path)
    elim found [
      | err e ↦ fail (
          status not_found (
            bytes "Could not get file information from "
            ++ req.volume_path
            ++ bytes ": "
            ++ message e))
      | ok _ ↦ do
        health ← gets (do_health_check_in_node_side O req.volume_path)
        stats ← gets (get_pv_stats O req.volume_path)
        elim stats [
          | err e ↦ fail (errorf (bytes "get volume stats failed: " ++ message e))
          | ok info ↦ pure (record {
            usage =
                record {
                  available = info.available;
                  used = info.usage;
                  total = info.capacity;
                  unit = usage_bytes;
                }
                ∷ record {
                  available = info.inodes_free;
                  used = info.inodes_used;
                  total = info.inodes;
                  unit = usage_inodes;
                }
                ∷ [];
            condition = record { abnormal = not health.0; message = health.1 };
          })
        ]
    ]

-- NodeGetInfo: the node's id and its topology.
unfoldable pub node_get_info : Config → Text × Topology
node_get_info cfg = (cfg.node_id, record { segments = (topology_key_node, cfg.node_id) ∷ [] })

pub data NodeCapability : Type 0 where
  node_volume_condition get_volume_stats : NodeCapability

unfoldable pub node_get_capabilities : List NodeCapability
node_get_capabilities = node_volume_condition ∷ get_volume_stats ∷ []

module _ {S : Type 0} where
  unfoldable pub node_stage_volume : Exec S (Unit {0})
  node_stage_volume = not_supported (bytes "NodeStageVolume")

  unfoldable pub node_unstage_volume : Exec S (Unit {0})
  node_unstage_volume = not_supported (bytes "NodeUnstageVolume")

  unfoldable pub node_expand_volume : Exec S (Unit {0})
  node_expand_volume = not_supported (bytes "NodeExpandVolume")

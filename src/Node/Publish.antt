-- ===== src/Node/Publish.antt =====
-- NodePublishVolume.
use hostpath_provisioner.Base.{
  ◌≡◌, Bool, true, false, [], ◌∷◌, some, Text, is_empty, ok, returns, arith, if◌then◌else◌,
}
use hostpath_provisioner.FilePath.{join}
use hostpath_provisioner.Os.{Os}
use hostpath_provisioner.Csi.{NodePublishVolumeRequest, mount_volume, MountVolume}
use hostpath_provisioner.Pools.{Config, pool_path, get_storage_pool_name_from_map}
use hostpath_provisioner.Node.{
  validate_node_publish_request, fs_type_of, mount_options, is_ephemeral_volume_request,
}
use hostpath_provisioner.Node.Mount.{
  can_mount_volume, volume_source_path, mount_volume_at, node_publish_volume,
}

-- A request for a mount of a volume, with everything that the node checks for.
pub record IsMountRequest (req : NodePublishVolumeRequest) : Type 0 where
  pub has_id : is_empty req.volume_id ≡ false
  pub has_target : is_empty req.target_path ≡ false
  pub capability : (m : MountVolume) × (req.volume_capability ≡ some (mount_volume m))

IsMountRequest-ok :
    (req : NodePublishVolumeRequest)
    → IsMountRequest req
    → validate_node_publish_request (some req) ≡ ok tt
unfolding validate_node_publish_request
IsMountRequest-ok req h = let e = h.capability.1 in ground arith

module _ (O : Os) (cfg : Config) where
  -- The path that a volume that is not ephemeral is mounted from.
  abbrev pub pool_directory : NodePublishVolumeRequest → Text
  pool_directory req =
      join (pool_path cfg (get_storage_pool_name_from_map req.volume_context) ∷ req.volume_id ∷ [])

  -- NodePublishVolume, for a request that passes its checks, of a volume that is not ephemeral:
  -- at a target that is a mount point already it does nothing; at one that is not it bind-mounts
  -- the volume's directory in its pool, read-only where the request says so, and returns what the
  -- mount leaves, where the mount works.
  pub node_publish_volume_pool :
      (req : NodePublishVolumeRequest) (s s' : O.State) (not_mnt : Bool)
      → IsMountRequest req
      → is_ephemeral_volume_request req ≡ false
      → O.is_not_mount_point req.target_path s ≡ ok not_mnt
      → O.mount
          (pool_directory req)
          req.target_path
          (fs_type_of req.volume_capability)
          (mount_options req.readonly)
          s
        ≡ (ok tt, s')
      → node_publish_volume O cfg (some req) s ≡ (returns tt, if not_mnt then s' else s)
  unfolding node_publish_volume can_mount_volume mount_volume_at volume_source_path
  node_publish_volume_pool req s s' true h e m p = ground (arith, IsMountRequest-ok req h)
  node_publish_volume_pool req s s' false h e m p = ground (arith, IsMountRequest-ok req h)

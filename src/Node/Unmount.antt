-- ===== src/Node/Unmount.antt =====
-- NodeUnpublishVolume: pkg/hostpath/nodeserver.go, lines 198 to 254.
use hostpath_provisioner.Base.{
  Text, bytes, text_eq, is_empty, true, false, ◌++◌, Option, ok, err, errorf, message, is_not_exist,
  if◌then◌else◌, Exec, pure, fail, lift, deref, read, gets, try, attempt, ◌>>=◌, ◌>>◌,
}
use hostpath_provisioner.FilePath.{dir}
use hostpath_provisioner.Os.{Os}
use hostpath_provisioner.Csi.{NodeUnpublishVolumeRequest}
use hostpath_provisioner.Pools.{
  Config, get_storage_pool_data_directories, delete_volume_directory, find_volume,
}
use hostpath_provisioner.Node.{is_ephemeral_volume_id, validate_node_unpublish_request}

module _ (O : Os) (cfg : Config) where
  -- Unmount only if the target path is really a mount point.
  unfoldable pub unmount_target : Text → Exec O.State (Unit {0})
  unmount_target target_path = do
    not_mnt ← gets (O.is_not_mount_point target_path)
    elim not_mnt [
      | err e ↦
          if is_not_exist e
          then pure tt
          else fail (errorf (bytes "check target path: " ++ message e))
      | ok true ↦ pure tt
      | ok false ↦ do
        unmounted ← attempt (O.unmount target_path)
        elim unmounted [
          | ok _ ↦ pure tt
          | err e ↦ fail (errorf (bytes "unmount target path: " ++ message e))
        ]
    ]

  unfoldable pub remove_found : Text → Text → Exec O.State (Unit {0})
  remove_found volume_path volume_id = if is_empty volume_path then pure tt else do
    removed ← try (delete_volume_directory O (dir volume_path) volume_id)
    elim removed [
      | ok _ ↦ pure tt
      | err e ↦ fail (
          errorf
            (bytes "failed to delete ephemeral volume " ++ volume_id ++ bytes ": " ++ message e))
    ]

  unfoldable pub remove_ephemeral_path : Text → Exec O.State (Unit {0})
  remove_ephemeral_path volume_id = do
    volume_dirs ← read (get_storage_pool_data_directories O cfg.storage_pool_info)
    remove_found (find_volume volume_dirs volume_id) volume_id

  -- The mount point is removed, with everything in it.
  unfoldable pub remove_target : Text → Exec O.State (Unit {0})
  remove_target target_path = do
    removed ← attempt (O.remove_all target_path)
    elim removed [
      | ok _ ↦ pure tt
      | err e ↦ fail (errorf (bytes "remove target path: " ++ message e))
    ]

  unfoldable pub remove_ephemeral : Text → Exec O.State (Unit {0})
  remove_ephemeral volume_id =
      if is_ephemeral_volume_id volume_id
      then (do
        removed ← try (remove_ephemeral_path volume_id)
        elim removed [
          | ok _ ↦ pure tt
          | err e ↦ fail (
              errorf (
                bytes "failed to delete ephemeral volume: "
                ++ volume_id
                ++ bytes ", "
                ++ message e))
        ])
      else pure tt

  unfoldable pub node_unpublish_volume : Option NodeUnpublishVolumeRequest → Exec O.State (Unit {0})
  node_unpublish_volume request = do
    lift (validate_node_unpublish_request request)
    req ← deref request
    unmount_target req.target_path
    remove_target req.target_path
    remove_ephemeral req.volume_id

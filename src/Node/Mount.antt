-- ===== src/Node/Mount.antt =====
-- NodePublishVolume: pkg/hostpath/nodeserver.go, lines 81 to 169.
use hostpath_provisioner.Base.{
  Text, bytes, text_eq, Bool, true, false, [], ◌∷◌, ◌++◌, Option, ok, err, Error, errorf, message,
  is_not_exist, if◌then◌else◌, Exec, pure, fail, panic, lift, deref, gets, try, attempt, ◌>>=◌,
  ◌>>◌,
}
use hostpath_provisioner.FilePath.{join, dir}
use hostpath_provisioner.Os.{Os}
use hostpath_provisioner.Csi.{NodePublishVolumeRequest}
use hostpath_provisioner.Pools.{
  Config, get_storage_pool_name_from_map, pool_path, create_volume_directory,
}
use hostpath_provisioner.Node.{
  validate_node_publish_request, fs_type_of, mount_options, is_ephemeral_volume_request,
  get_ephemeral_volume_path,
}

module _ (O : Os) where
  -- os.RemoveAll of an ephemeral directory, whose error other than "not exist" is only appended.
  unfoldable pub removal_note : Bool → Text → Exec O.State Text
  removal_note false path = pure []
  removal_note true path = do
    removed ← attempt (O.remove_all path)
    elim removed [
      | ok _ ↦ pure []
      | err e ↦ if is_not_exist e then pure [] else pure (bytes " :" ++ message e)
    ]

  -- The branch of mountVolume where the mount has failed. After a failed os.Stat fileInfo is nil,
  -- and fileInfo.Mode() panics.
  unfoldable pub mount_failed : Bool → Text → Text → Error → Exec O.State (Unit {0})
  unfolding removal_note
  mount_failed ephemeral path target_path e = do
    found ← gets (O.stat target_path)
    elim found [
      | err _ ↦ panic
      | ok info ↦ do
        note ← removal_note ephemeral path
        fail (
            errorf (
              bytes "failed to mount device: "
              ++ path
              ++ bytes " at "
              ++ target_path
              ++ bytes ": "
              ++ message e
              ++ info.mode
              ++ note))
    ]

  unfoldable pub can_mount_volume : Text → Exec O.State Bool
  can_mount_volume target_path = do
    not_mnt ← gets (O.is_not_mount_point target_path)
    elim not_mnt [
      | ok b ↦ pure b
      | err e ↦
          if is_not_exist e
          then (do
            made ← attempt (O.mkdir target_path 0o750)
            elim made [
              | ok _ ↦ pure true
              | err e' ↦ fail (errorf (bytes "create target path: " ++ message e'))
            ])
          else fail (errorf (bytes "check target path: " ++ message e))
    ]

module _ (O : Os) (cfg : Config) where
  -- The directory that is mounted; an ephemeral volume's is made first.
  unfoldable pub volume_source_path : NodePublishVolumeRequest → Exec O.State Text
  volume_source_path req =
      let storage_pool_name = get_storage_pool_name_from_map req.volume_context in
      if is_ephemeral_volume_request req
      then (do
        let path = get_ephemeral_volume_path cfg storage_pool_name req.volume_id
        made ← try (create_volume_directory O (dir path) req.volume_id)
        elim made [
          | ok _ ↦ pure path
          | err e ↦ fail (
              errorf (
                bytes "failed to create ephemeral volume "
                ++ req.volume_id
                ++ bytes ": "
                ++ message e))
        ])
      else pure (join (pool_path cfg storage_pool_name ∷ req.volume_id ∷ []))

  unfoldable pub mount_volume_at : Text → NodePublishVolumeRequest → Exec O.State (Unit {0})
  mount_volume_at target_path req = do
    path ← volume_source_path req
    mounted ←
        attempt
          (O.mount path target_path (fs_type_of req.volume_capability) (mount_options req.readonly))
    elim mounted [
      | ok _ ↦ pure tt
      | err e ↦ mount_failed O (is_ephemeral_volume_request req) path target_path e
    ]

  unfoldable pub node_publish_volume : Option NodePublishVolumeRequest → Exec O.State (Unit {0})
  node_publish_volume request = do
    lift (validate_node_publish_request request)
    req ← deref request
    can_mnt ← can_mount_volume O req.target_path
    if can_mnt then mount_volume_at req.target_path req else pure tt

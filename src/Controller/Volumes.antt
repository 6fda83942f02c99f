-- ===== src/Controller/Volumes.antt =====
-- CreateVolume, DeleteVolume, ValidateVolumeCapabilities and GetCapacity, with their checks.
pub mod Checks
pub mod Confirm
pub mod Create
pub mod Delete
pub mod Listed
use hostpath_provisioner.Base.{
  ℤ, pos, Text, bytes, ◌==◌, text_eq, is_empty, Bool, true, false, not, ◌||◌, List, [], ◌∷◌, ◌++◌,
  Option, none, some, Result, ok, err, Error, status, errorf, message, invalid_argument, not_found,
  if◌then◌else◌, Exec, pure, fail, lift, deref, read, try, ◌>>=◌, ◌>>◌,
}
use hostpath_provisioner.Base.Dict.{Dict, lookup, value_or_empty}
use hostpath_provisioner.FilePath.{join, base, dir}
use hostpath_provisioner.Os.{Os, StoragePoolInfo}
use hostpath_provisioner.Csi.{
  VolumeCapability, block_volume, mount_volume, no_access_type, Topology, TopologyRequirement,
  VolumeContentSource, snapshot_source, volume_source, CreateVolumeRequest, Volume,
  ValidateVolumeCapabilitiesRequest, Confirmed, GetCapacityResponse,
}
use hostpath_provisioner.Pools.{
  Config, get_storage_pool_name_from_map, pool_path, check_path_exist,
  get_storage_pool_data_directories, create_volume_directory, delete_volume_directory, find_volume,
}
use hostpath_provisioner.Capacity.{get_volume_dir_capacity, get_pv_stats}
use hostpath_provisioner.Controller.{HostPathController, topology_key_node}

abbrev pub invalid : Text → Error
invalid text = status invalid_argument text

-- cap.GetMount() != nil
unfoldable pub is_mount : VolumeCapability → Bool
is_mount (mount_volume _) = true
is_mount block_volume = false
is_mount no_access_type = false

unfoldable pub any_mount : List VolumeCapability → Bool
unfolding is_mount
any_mount [] = false
any_mount (cap_ ∷ caps) = is_mount cap_ || any_mount caps

unfoldable pub validate_create_volume_request : Option CreateVolumeRequest → Result (Unit {0})
unfolding any_mount
validate_create_volume_request none = err (invalid (bytes "missing request"))
validate_create_volume_request (some req) =
    if is_empty req.name
    then err (invalid (bytes "name missing in request"))
    else elim req.volume_capabilities [
      | none ↦ err (invalid (bytes "volume capabilities missing in request"))
      | some caps ↦
          if any_mount caps then ok tt else err (invalid (bytes "must have mount access type"))
    ]

-- One of the two loops over the topologies of a request.
unfoldable pub names_node : Text → List Topology → Bool
names_node node_id [] = false
names_node node_id (t ∷ ts) =
    value_or_empty topology_key_node t.segments == node_id || names_node node_id ts

unfoldable pub validate_create_volume_request_topology :
    Config → CreateVolumeRequest → Result (Unit {0})
unfolding names_node
validate_create_volume_request_topology cfg req = elim req.accessibility_requirements [
  | none ↦ ok tt
  | some t ↦
      if names_node cfg.node_id t.requisite || names_node cfg.node_id t.preferred
      then ok tt
      else err (invalid (bytes "not correct node"))
]

-- The topologies of a volume: this node, unless the pool is shared.
unfoldable pub volume_topologies : Text → StoragePoolInfo → List Topology
volume_topologies node_id pool =
    if pool.shared then [] else record { segments = (topology_key_node, node_id) ∷ [] } ∷ []

unfoldable pub validate_delete_volume_request : Option Text → Result (Unit {0})
validate_delete_volume_request none = err (invalid (bytes "missing request"))
validate_delete_volume_request (some volume_id) =
    if is_empty volume_id then err (invalid (bytes "Volume ID missing in request")) else ok tt

-- Every capability is a mount.
unfoldable pub all_mounts : List VolumeCapability → Bool
unfolding is_mount
all_mounts [] = true
all_mounts (cap_ ∷ caps) = if is_mount cap_ then all_mounts caps else false

unfoldable pub no_pool : Text → Error
no_pool name = errorf (bytes "unable to locate path for storage pool " ++ name)

module _ (O : Os) (hpc : HostPathController O.State) where
  open hpc use {cfg, snapshot_providers}

  unfoldable pub restore_from_snapshot : Text → Text → Text → Exec O.State (Unit {0})
  restore_from_snapshot snapshot_id storage_pool_name target_volume =
      elim (lookup storage_pool_name snapshot_providers) [
        | none ↦ fail (
            errorf (
              bytes
                "unable to restore snapshot because unable to locate snapshot provider for storage pool "
              ++ storage_pool_name))
        | some provider ↦
            provider.restore_snapshot snapshot_id
              (join (pool_path cfg storage_pool_name ∷ target_volume ∷ []))
      ]

  -- The directory is made unless something has its path.
  unfoldable pub ensure_volume_directory : Text → Text → Exec O.State (Unit {0})
  ensure_volume_directory path name = do
    exists ← read (check_path_exist O (join (path ∷ name ∷ [])))
    if exists then pure tt else do
      made ← try (create_volume_directory O path name)
      elim made [
        | ok _ ↦ pure tt
        | err e ↦
            fail (errorf (bytes "failed to create volume " ++ name ++ bytes ": " ++ message e))
      ]

  -- A failed restore: the volume's directory is deleted, and the error of the restore returned.
  unfoldable pub drop_after_restore : Text → Text → Error → Exec O.State (Unit {0})
  drop_after_restore path name e = do
    removed ← try (delete_volume_directory O path name)
    elim removed [
      | ok _ ↦ fail e
      | err e' ↦
          fail (errorf (bytes "failed to delete restore " ++ name ++ bytes ": " ++ message e'))
    ]

  unfoldable pub restore_content :
      Text → Text → Text → Option VolumeContentSource → Exec O.State (Unit {0})
  restore_content storage_pool_name path name (some (snapshot_source (some id))) = do
    restored ← try (restore_from_snapshot id storage_pool_name name)
    elim restored [ ok _ ↦ pure tt | err e ↦ drop_after_restore path name e ]
  restore_content storage_pool_name path name (some (snapshot_source none)) = pure tt
  restore_content storage_pool_name path name (some (volume_source _)) = pure tt
  restore_content storage_pool_name path name none = pure tt

  -- CreateVolume behind the validation, in the pool of the request.
  unfoldable pub create_in_pool : CreateVolumeRequest → Text → StoragePoolInfo → Exec O.State Volume
  create_in_pool req storage_pool_name pool = do
    capacity ← read (get_volume_dir_capacity O pool.path)
    ensure_volume_directory pool.path req.name
    restore_content storage_pool_name pool.path req.name req.volume_content_source
    pure (record {
      volume_id = req.name;
      capacity_bytes = capacity;
      volume_context = req.parameters;
      content_source = req.volume_content_source;
      accessible_topology = volume_topologies cfg.node_id pool;
    })

  unfoldable pub create_volume : Option CreateVolumeRequest → Exec O.State Volume
  unfolding no_pool
  create_volume request = do
    lift (validate_create_volume_request request)
    req ← deref request
    lift (validate_create_volume_request_topology cfg req)
    let storage_pool_name = get_storage_pool_name_from_map req.parameters
    elim (lookup storage_pool_name cfg.storage_pool_info) [
      | none ↦ fail (no_pool storage_pool_name)
      | some pool ↦ create_in_pool req storage_pool_name pool
    ]

  unfoldable pub get_volume_directories : O.State → Result (List Text)
  get_volume_directories s = get_storage_pool_data_directories O cfg.storage_pool_info s

  -- DeleteVolume behind the search: the directory is removed if one was found.
  unfoldable pub delete_found : Text → Text → Exec O.State (Unit {0})
  delete_found volume_path volume_id = if is_empty volume_path then pure tt else do
    removed ← try (delete_volume_directory O (dir volume_path) volume_id)
    elim removed [
      | ok _ ↦ pure tt
      | err e ↦
          fail (errorf (bytes "failed to delete volume " ++ volume_id ++ bytes ": " ++ message e))
    ]

  unfoldable pub delete_volume : Option Text → Exec O.State (Unit {0})
  delete_volume request = do
    lift (validate_delete_volume_request request)
    volume_id ← deref request
    volume_dirs ← read get_volume_directories
    delete_found (find_volume volume_dirs volume_id) volume_id

  unfoldable pub validate_volume_capabilities :
      ValidateVolumeCapabilitiesRequest → Exec O.State Confirmed
  validate_volume_capabilities req =
      if is_empty req.volume_id
      then fail (invalid (bytes "volume ID not provided"))
      else elim req.volume_capabilities [
        | [] ↦ fail (invalid (bytes "volumeCapabilities not provided for " ++ req.volume_id))
        | cap_ ∷ caps ↦
            if not (all_mounts req.volume_capabilities)
            then fail (invalid (bytes "mount type is undefined"))
            else do
              let storage_pool_name = get_storage_pool_name_from_map req.parameters
              exists ←
                  read (
                    check_path_exist O
                      (join (pool_path cfg storage_pool_name ∷ req.volume_id ∷ [])))
              if exists
                  then pure (record {
                    volume_context = req.volume_context;
                    volume_capabilities = req.volume_capabilities;
                    parameters = req.parameters;
                  })
                  else fail
                      (status not_found (bytes "volume " ++ req.volume_id ++ bytes " not found"))
      ]

  -- The request is its parameters.
  unfoldable pub get_capacity : Option (Dict Text) → Exec O.State GetCapacityResponse
  unfolding no_pool
  get_capacity none = fail (invalid (bytes "missing request"))
  get_capacity (some parameters) =
      let storage_pool_name = get_storage_pool_name_from_map parameters in
      elim (lookup storage_pool_name cfg.storage_pool_info) [
        | none ↦ fail (no_pool storage_pool_name)
        | some pool ↦ do
          info ← read (get_pv_stats O pool.path)
          pure (record {
            available_capacity = info.available;
            maximum_volume_size = info.capacity;
            minimum_volume_size = pos 0;
          })
      ]

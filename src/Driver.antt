-- ===== src/Driver.antt =====
-- pkg/hostpath/hostpath.go: NewHostPathDriver, and pkg/hostpath/identityserver.go.
pub mod Setup
pub mod Published
use hostpath_provisioner.Base.{
  Text, bytes, is_empty, Bool, List, [], ◌∷◌, ◌++◌, Option, none, some, Result, ok, err, Error,
  status, errorf, message, unavailable, if◌then◌else◌, Exec, pure, fail, panic, lift, try, perform,
  ◌>>=◌, ◌>>◌,
}
use hostpath_provisioner.Base.Dict.{Dict, insert}
use hostpath_provisioner.Os.{Os, StoragePoolInfo}
use hostpath_provisioner.Pools.{Config}
use hostpath_provisioner.Controller.{HostPathController, new_host_path_controller}

unfoldable pub validate_config : Config → Result (Unit {0})
validate_config cfg =
    if is_empty cfg.driver_name
    then err (errorf (bytes "no driver name provided"))
    else if is_empty cfg.node_id
    then err (errorf (bytes "no node id provided"))
    else if is_empty cfg.endpoint
    then err (errorf (bytes "no driver endpoint provided"))
    else if is_empty cfg.version
    then err (errorf (bytes "no version provided"))
    else ok tt

-- The loop over the pools: the first name becomes the default, unless there is one.
unfoldable pub register_pools : List StoragePoolInfo → Config → Config
register_pools [] cfg = cfg
register_pools (pool ∷ pools) cfg = register_pools pools (record cfg {
  default_storage_pool_name =
      if is_empty cfg.default_storage_pool_name then pool.name else cfg.default_storage_pool_name;
  storage_pool_info = insert pool.name pool cfg.storage_pool_info;
})

module _ (O : Os) where
  -- The loop that makes the root directory of each pool.
  unfoldable pub make_data_roots : Dict StoragePoolInfo → Exec O.State (Unit {0})
  make_data_roots [] = pure tt
  make_data_roots ((k, v) ∷ pools) = do
    made ← try (perform (O.mkdir_all v.path 0o750))
    elim made [
      | ok _ ↦ make_data_roots pools
      | err e ↦ fail (
          errorf
            (bytes "failed to create dataRoot for storage pool " ++ k ++ bytes ": " ++ message e))
    ]

  -- The controller, and with it the configuration that all three services are given.
  started : Config → Exec O.State (HostPathController O.State)
  started cfg = elim (new_host_path_controller O cfg) [ none ↦ panic | some hpc ↦ pure hpc ]

  configured : Config → Result (List StoragePoolInfo) → Exec O.State (HostPathController O.State)
  unfolding started
  configured cfg (err _) = fail (errorf (bytes "unable to parse storage pool info"))
  configured cfg (ok pools) = do
    let cfg' = register_pools pools (record cfg { storage_pool_info = [] })
    make_data_roots cfg'.storage_pool_info
    started cfg'

  unfoldable pub new_host_path_driver : Config → Text → Exec O.State (HostPathController O.State)
  unfolding configured
  new_host_path_driver cfg data_dir = do
    lift (validate_config cfg)
    configured cfg (O.unmarshal_pools data_dir)

-- The name and the version of the plugin.
unfoldable pub get_plugin_info : Config → Result (Text × Text)
get_plugin_info cfg =
    if is_empty cfg.driver_name
    then err (status unavailable (bytes "Driver name not configured"))
    else if is_empty cfg.version
    then err (status unavailable (bytes "Version not configured"))
    else ok (cfg.driver_name, cfg.version)

pub data PluginCapability : Type 0 where
  controller_service volume_accessibility_constraints : PluginCapability

unfoldable pub get_plugin_capabilities : List PluginCapability
get_plugin_capabilities = controller_service ∷ volume_accessibility_constraints ∷ []

unfoldable pub probe : Unit {0}
probe = tt

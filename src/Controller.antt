-- ===== src/Controller.antt =====
-- pkg/hostpath/controllerserver.go: the controller service. The handlers run one at a time here;
-- the mutex of the source makes the snapshot calls do so. The handlers over volumes and over
-- snapshots stand in the modules below.
pub mod Volumes
pub mod Listing
pub mod Snaps
pub mod Providers
pub mod History
pub mod Parallel
use hostpath_provisioner.Base.{
  ℕ, ℤ, pos, negsuc, ◌-◌, Text, bytes, ◌==◌, text_eq, nat_eq, is_empty, Bool, true, false, not,
  ◌&&◌, ◌||◌, leb, List, [], ◌∷◌, ◌++◌, length, take, drop, Option, none, some, Result, ok, err,
  Error, status, errorf, invalid_argument, unimplemented, if◌then◌else◌, Exec, fail,
}
use hostpath_provisioner.Base.Dict.{Dict, lookup, insert, value_or_empty}
use hostpath_provisioner.Os.{Os, StoragePoolInfo}
use hostpath_provisioner.Pools.{Config, get_storage_pool_data_directories}
use hostpath_provisioner.Capacity.{get_volume_dir_capacity}
use hostpath_provisioner.Snapshots.{SnapshotProvider, Reflink, reflink_provider}

-- hostPathController
pub record HostPathController (S : Type 0) : Type 0 where
  pub cfg : Config
  pub snapshot_providers : Dict (SnapshotProvider S)

abbrev pub reflink_provider_name : Text
reflink_provider_name = bytes "reflink"

abbrev pub topology_key_node : Text
topology_key_node = bytes "topology.hostpath.csi/node"

-- xs[lo:hi], which panics unless 0 ≤ lo ≤ hi and hi is at most the length. (Go allows hi up to the
-- capacity of the slice; both callers cut hi down to the length.)
unfoldable pub slice {ℓ} : {A : Type ℓ} → List A → ℤ → ℤ → Option (List A)
slice xs (pos lo) (pos hi) =
    if leb lo hi && leb hi (length xs) then some (take (hi - lo) (drop lo xs)) else none
slice xs (pos lo) (negsuc _) = none
slice xs (negsuc _) hi = none

module _ (O : Os) where
  abbrev pub Providers : Type 0
  Providers = Dict (SnapshotProvider O.State)

  -- The loop of NewHostPathController. `none`: klog.Fatalf on a provider that is not supported, or
  -- the panic on a snapshot path that is not set.
  unfoldable pub make_providers : Text → Dict StoragePoolInfo → Providers → Option Providers
  make_providers node_id [] made = some made
  make_providers node_id ((pool, info) ∷ pools) made = elim info.snapshot_provider [
    | none ↦ make_providers node_id pools made
    | some provider ↦
        if provider == reflink_provider_name
        then (elim info.snapshot_path [
          | none ↦ none
          | some path ↦
              let r : Reflink = record {
                node_name = node_id;
                path = path;
                source_path = info.path;
              } in
              make_providers node_id pools (insert pool (reflink_provider O r) made)
        ])
        else none
  ]

  unfoldable pub new_host_path_controller : Config → Option (HostPathController O.State)
  unfolding make_providers
  new_host_path_controller config =
      elim (make_providers config.node_id config.storage_pool_info []) [
        | none ↦ none
        | some providers ↦ some (record { cfg = config; snapshot_providers = providers })
      ]

  -- capacityMap: the capacity of each pool, by the pool's path.
  unfoldable pub capacity_map : Dict StoragePoolInfo → Dict ℤ → O.State → Result (Dict ℤ)
  capacity_map [] made s = ok made
  capacity_map ((k, info) ∷ pools) made s = elim (get_volume_dir_capacity O info.path s) [
    | err e ↦ err e
    | ok capacity ↦ capacity_map pools (insert info.path capacity made) s
  ]

-- capacityMap[path]: 0 for a path that is not there
unfoldable pub capacity_at : Text → Dict ℤ → ℤ
capacity_at path m = elim (lookup path m) [ none ↦ pos 0 | some c ↦ c ]

pub data ControllerCapability : Type 0 where
  create_delete_volume get_volume get_capacity_rpc list_volumes_rpc create_delete_snapshot
        list_snapshots_rpc volume_condition :
      ControllerCapability

-- getControllerServiceCapabilities and ControllerGetCapabilities
unfoldable pub controller_get_capabilities : List ControllerCapability
controller_get_capabilities =
    create_delete_volume ∷ get_volume ∷ get_capacity_rpc ∷ list_volumes_rpc ∷ create_delete_snapshot
    ∷ list_snapshots_rpc ∷ volume_condition ∷ []

-- The calls that are refused.
module _ {S : Type 0} where
  abbrev pub not_supported : Text → Exec S (Unit {0})
  not_supported call = fail (status unimplemented (call ++ bytes " is not supported"))

  unfoldable pub controller_publish_volume : Exec S (Unit {0})
  controller_publish_volume = not_supported (bytes "ControllerPublishVolume")

  unfoldable pub controller_unpublish_volume : Exec S (Unit {0})
  controller_unpublish_volume = not_supported (bytes "ControllerUnpublishVolume")

  unfoldable pub controller_expand_volume : Exec S (Unit {0})
  controller_expand_volume = not_supported (bytes "controllerExpandVolume")

  unfoldable pub controller_modify_volume : Exec S (Unit {0})
  controller_modify_volume = not_supported (bytes "controllerModifyVolume")

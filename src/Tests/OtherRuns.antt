-- ===== src/Tests/OtherRuns.antt =====
-- Figures, the set-up, the endpoint, and the legacy provisioner.
use hostpath_provisioner.Base.{
  Text, is_empty, ◌≢◌, ℕ, ◌-◌, ◌*◌, ◌≤◌, ℤ, pos, ltb_ℤ, bytes, ◌≡◌, refl, ◌↔◌, true, false, List,
  [], ◌∷◌, none, ok, returns, arith, text_eq,
}
use hostpath_provisioner.Os.{StatFs, StoragePoolInfo}
use hostpath_provisioner.Capacity.{round_down_capacity_pretty, fs_numbers, FsInfo}
use hostpath_provisioner.Capacity.Rounding.{
  round_down_capacity_pretty_bounds, fs_numbers-exact, Fits, exact,
}
use hostpath_provisioner.Server.{listen}
use hostpath_provisioner.Server.Endpoint.{listen_upper}
use hostpath_provisioner.FilePath.{join}
use hostpath_provisioner.Csi.{ValidateVolumeCapabilitiesRequest, mount_volume}
use hostpath_provisioner.Pools.{check_path_exist}
use hostpath_provisioner.Controller.Volumes.{validate_volume_capabilities}
use hostpath_provisioner.Controller.Volumes.Confirm.{
  OnlyMounts, confirmed, validate_volume_capabilities_iff,
}
use hostpath_provisioner.Provisioner.{
  HostPathProvisioner, PersistentVolumeClaim, PersistentVolume, deleted, volume_object,
  default_provisioner_name, selected_node, wait_for_first_consumer, calculate_pv_capacity,
  should_provision, delete,
}
use hostpath_provisioner.Provisioner.Claims.{IsForNode, should_provision_iff}
use hostpath_provisioner.Provisioner.Volumes.{delete-provision}
use hostpath_provisioner.Tests.Compute.{everything}
use hostpath_provisioner.Tests.Data.{controller_on, parameters, machine, pool, other_pool, fresh}

-- 12 GiB and one byte.
round_down_capacity_pretty_bounds_example :
    (m : ℕ) × (round_down_capacity_pretty (pos 12884901889) ≡ pos m)
    × (m ≤ 12884901889)
    × (10 * (12884901889 - m) ≤ 12884901889)
round_down_capacity_pretty_bounds_example = round_down_capacity_pretty_bounds 12884901889

abbrev some_blocks : StatFs
some_blocks = record {
  bavail = 60;
  blocks = 100;
  bfree = 70;
  files = 20;
  ffree = 12;
  bsize = pos 4096;
}

some_blocks-Fits : Fits some_blocks 4096
some_blocks-Fits = record {
  block_size = refl;
  free_blocks = omega arith;
  available_blocks = omega arith;
  blocks_fit = omega arith;
  product_fits = omega arith;
  free_inodes = omega arith;
  inodes_fit = omega arith;
}

abbrev some_numbers : FsInfo
some_numbers = record {
  available = pos 245760;
  capacity = pos 409600;
  usage = pos 122880;
  inodes = pos 20;
  inodes_free = pos 12;
  inodes_used = pos 8;
}

fs_numbers-exact_example : fs_numbers some_blocks ≡ some_numbers
unfolding exact
fs_numbers-exact_example = fs_numbers-exact some_blocks 4096 some_blocks-Fits

abbrev two_pools : List StoragePoolInfo
two_pools = pool ∷ other_pool ∷ []

listen_upper_example : listen machine (bytes "UNIX:///csi.sock") fresh ≡ (returns none, fresh)
unfolding everything
listen_upper_example = listen_upper machine (bytes "/csi.sock") fresh fresh refl refl

abbrev with_volume : List Text
with_volume = bytes "/data/pvc-1" ∷ fresh

abbrev to_confirm : ValidateVolumeCapabilitiesRequest
to_confirm = record {
  volume_id = bytes "pvc-1";
  volume_context = [];
  volume_capabilities = mount_volume (record { fs_type = []; mount_flags = [] }) ∷ [];
  parameters = parameters;
}

validate_volume_capabilities_iff_example :
    (validate_volume_capabilities machine (controller_on machine) to_confirm with_volume
      ≡ (returns (confirmed machine (controller_on machine) to_confirm), with_volume))
    ↔ ((is_empty (bytes "pvc-1") ≡ false)
        × (to_confirm.volume_capabilities ≢ [])
        × OnlyMounts to_confirm.volume_capabilities
        × (check_path_exist machine (join (bytes "/data" ∷ bytes "pvc-1" ∷ [])) with_volume
            ≡ ok true))
unfolding everything
validate_volume_capabilities_iff_example =
    validate_volume_capabilities_iff machine (controller_on machine) to_confirm with_volume

abbrev provisioner : HostPathProvisioner
provisioner = record {
  pv_dir = bytes "/data";
  identity = default_provisioner_name;
  node_name = bytes "node-1";
  use_naming_prefix = false;
}

abbrev claim : PersistentVolumeClaim
claim = record {
  name = bytes "home";
  annotations = (selected_node, bytes "node-1") ∷ [];
  storage_request = pos 4096;
}

should_provision_iff_example :
    ((should_provision machine provisioner claim wait_for_first_consumer fresh).0 ≡ true) ↔ (
      IsForNode claim.annotations (bytes "node-1") wait_for_first_consumer
      × ((c : ℤ) × (calculate_pv_capacity machine provisioner (bytes "/data") fresh ≡ ok c)
          × (ltb_ℤ c (pos 4096) ≡ false)))
should_provision_iff_example =
    should_provision_iff machine provisioner claim wait_for_first_consumer fresh

abbrev volume : PersistentVolume
volume = volume_object provisioner (bytes "pv-1") (bytes "/data/pv-1") (pos 409600)

-- A volume with no annotations.
abbrev stray : PersistentVolume
stray = record volume { annotations = [] }

delete-provision_example :
    (machine.mkdir_all (bytes "/data/pv-1") 0o777 fresh ≡ (ok tt, bytes "/data/pv-1" ∷ fresh))
    × (delete machine provisioner volume (bytes "/data/pv-1" ∷ fresh) ≡ (returns deleted, fresh))
unfolding everything
delete-provision_example =
    delete-provision machine provisioner claim (bytes "pv-1") fresh (bytes "/data/pv-1" ∷ fresh)
      (bytes "/data/pv-1" ∷ fresh) fresh volume refl refl

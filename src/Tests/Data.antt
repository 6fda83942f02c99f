-- ===== src/Tests/Data.antt =====
-- A machine, a configuration and requests for the runs.
use hostpath_provisioner.Base.{Text, bytes, true, false, List, [], ◌∷◌, Option, none, some}
use hostpath_provisioner.Base.Dict.{Dict}
use hostpath_provisioner.Os.{Os, StoragePoolInfo}
use hostpath_provisioner.Os.Memory.{memory}
use hostpath_provisioner.Pools.{Config}
use hostpath_provisioner.Csi.{CreateVolumeRequest, mount_volume, VolumeContentSource}
use hostpath_provisioner.Snapshots.{Reflink, reflink_provider}
use hostpath_provisioner.Controller.{HostPathController}

-- 100 blocks of 4096 bytes and 10 inodes.
abbrev pub machine : Os
machine = memory 100 10

abbrev pub pool : StoragePoolInfo
pool = record {
  name = bytes "local";
  path = bytes "/data";
  snapshot_path = some (bytes "/snap");
  snapshot_provider = some (bytes "reflink");
  shared = false;
}

-- A second pool, with no snapshots.
abbrev pub other_pool : StoragePoolInfo
other_pool = record {
  name = bytes "other";
  path = bytes "/data2";
  snapshot_path = none;
  snapshot_provider = none;
  shared = true;
}

abbrev pub config : Config
config = record {
  driver_name = bytes "hostpath";
  endpoint = bytes "unix://csi.sock";
  node_id = bytes "node-1";
  storage_pool_info = (bytes "local", pool) ∷ [];
  default_storage_pool_name = bytes "local";
  version = bytes "1";
}

abbrev pub reflink : Reflink
reflink = record { node_name = bytes "node-1"; path = bytes "/snap"; source_path = bytes "/data" }

abbrev pub controller_on : (O : Os) → HostPathController O.State
controller_on O = record {
  cfg = config;
  snapshot_providers = (bytes "local", reflink_provider O reflink) ∷ [];
}

-- The pool's directory and the snapshots' are there, and nothing else.
abbrev pub fresh : List Text
fresh = bytes "/data" ∷ bytes "/snap" ∷ []

abbrev pub parameters : Dict Text
parameters = (bytes "storagePool", bytes "local") ∷ []

abbrev pub create_request : Option VolumeContentSource → CreateVolumeRequest
create_request source = record {
  name = bytes "pvc-1";
  volume_capabilities = some (mount_volume (record { fs_type = []; mount_flags = [] }) ∷ []);
  parameters = parameters;
  accessibility_requirements = none;
  volume_content_source = source;
}

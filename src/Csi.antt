-- ===== src/Csi.antt =====
-- The messages of the Container Storage Interface (github.com/container-storage-interface/spec),
-- with the fields that the driver reads or writes. A message that may be nil is an `Option` where
-- the driver tests for it; a nil slice of capabilities differs from an empty one.
use hostpath_provisioner.Base.{ℤ, Text, Bool, List, Option}
use hostpath_provisioner.Base.Dict.{Dict}

pub record MountVolume : Type 0 where
  pub fs_type : Text
  pub mount_flags : List Text

pub data VolumeCapability : Type 0 where
  block_volume : VolumeCapability
  mount_volume : MountVolume → VolumeCapability
  no_access_type : VolumeCapability

pub record Topology : Type 0 where
  pub segments : Dict Text

pub record TopologyRequirement : Type 0 where
  pub requisite : List Topology
  pub preferred : List Topology

-- The snapshot's id, where the pointer to the snapshot is not nil; or another volume.
pub data VolumeContentSource : Type 0 where
  snapshot_source : Option Text → VolumeContentSource
  volume_source : Text → VolumeContentSource

pub record CreateVolumeRequest : Type 0 where
  pub name : Text
  pub volume_capabilities : Option (List VolumeCapability)
  pub parameters : Dict Text
  pub accessibility_requirements : Option TopologyRequirement
  pub volume_content_source : Option VolumeContentSource

pub record Volume : Type 0 where
  pub volume_id : Text
  pub capacity_bytes : ℤ
  pub volume_context : Dict Text
  pub content_source : Option VolumeContentSource
  pub accessible_topology : List Topology

pub record ValidateVolumeCapabilitiesRequest : Type 0 where
  pub volume_id : Text
  pub volume_context : Dict Text
  pub volume_capabilities : List VolumeCapability
  pub parameters : Dict Text

pub record Confirmed : Type 0 where
  pub volume_context : Dict Text
  pub volume_capabilities : List VolumeCapability
  pub parameters : Dict Text

pub record GetCapacityResponse : Type 0 where
  pub available_capacity : ℤ
  pub maximum_volume_size : ℤ
  pub minimum_volume_size : ℤ

pub record ListVolumesRequest : Type 0 where
  pub max_entries : ℤ
  pub starting_token : Text

pub record VolumeCondition : Type 0 where
  pub abnormal : Bool
  pub message : Text

-- An entry of ListVolumes, and the answer of ControllerGetVolume.
pub record VolumeEntry : Type 0 where
  pub volume_id : Text
  pub capacity_bytes : ℤ
  pub published_node_ids : List Text
  pub condition : VolumeCondition

pub record ListVolumesResponse : Type 0 where
  pub entries : List VolumeEntry
  pub next_token : Text

pub record Timestamp : Type 0 where
  pub seconds : ℤ
  pub nanos : ℤ

pub record Snapshot : Type 0 where
  pub snapshot_id : Text
  pub source_volume_id : Text
  pub creation_time : Timestamp
  pub ready_to_use : Bool

pub record CreateSnapshotRequest : Type 0 where
  pub name : Text
  pub source_volume_id : Text
  pub parameters : Dict Text

pub record ListSnapshotsRequest : Type 0 where
  pub max_entries : ℤ
  pub starting_token : Text
  pub source_volume_id : Text
  pub snapshot_id : Text

pub record ListSnapshotsResponse : Type 0 where
  pub entries : List Snapshot
  pub next_token : Text

pub record NodePublishVolumeRequest : Type 0 where
  pub volume_id : Text
  pub target_path : Text
  pub volume_capability : Option VolumeCapability
  pub readonly : Bool
  pub volume_context : Dict Text

pub record NodeUnpublishVolumeRequest : Type 0 where
  pub volume_id : Text
  pub target_path : Text

pub record NodeGetVolumeStatsRequest : Type 0 where
  pub volume_id : Text
  pub volume_path : Text

pub data UsageUnit : Type 0 where
  usage_bytes usage_inodes : UsageUnit

pub record VolumeUsage : Type 0 where
  pub available : ℤ
  pub used : ℤ
  pub total : ℤ
  pub unit : UsageUnit

pub record NodeGetVolumeStatsResponse : Type 0 where
  pub usage : List VolumeUsage
  pub condition : VolumeCondition

-- ===== src/Csi.antt =====
-- The CSI messages that the handlers read and build (container-storage-interface/spec), with the
-- fields that the drivers use. A pointer that may be nil is an `Option`.
pub mod Node
use huaweicloud_csi_driver.Prelude.{ℕ, eqb, String, Bool, Option, none, some, List, ℤ}
use huaweicloud_csi_driver.Prelude.Dict.{Dict}

-- csi.VolumeCapability_AccessMode_Mode
pub data AccessMode : Type 0 where
  mode_unknown single_node_writer single_node_reader_only multi_node_reader_only : AccessMode
  multi_node_single_writer multi_node_multi_writer : AccessMode
  single_node_single_writer single_node_multi_writer : AccessMode

-- The enum's numbers.
abbrev pub mode_number : AccessMode → ℕ
mode_number mode_unknown = 0
mode_number single_node_writer = 1
mode_number single_node_reader_only = 2
mode_number multi_node_reader_only = 3
mode_number multi_node_single_writer = 4
mode_number multi_node_multi_writer = 5
mode_number single_node_single_writer = 6
mode_number single_node_multi_writer = 7

abbrev pub same_mode : AccessMode → AccessMode → Bool
same_mode a b = eqb (mode_number a) (mode_number b)

pub data AccessType : Type 0 where
  access_unset block : AccessType
  -- FsType and MountFlags
  mount : String → List String → AccessType

pub record VolumeCapability : Type 0 where
  pub access_mode : Option AccessMode
  pub access_type : AccessType

-- GetAccessMode().GetMode(), which is UNKNOWN without an access mode
abbrev mode_or_unknown : Option AccessMode → AccessMode
mode_or_unknown none = mode_unknown
mode_or_unknown (some mode) = mode

abbrev pub get_mode : VolumeCapability → AccessMode
get_mode capability = mode_or_unknown capability.access_mode

pub record CapacityRange : Type 0 where
  pub required_bytes : ℤ
  pub limit_bytes : ℤ

pub record Topology : Type 0 where
  pub segments : Dict String

pub record TopologyRequirement : Type 0 where
  pub requisite : List Topology
  pub preferred : List Topology

pub data VolumeContentSource : Type 0 where
  source_unset : VolumeContentSource
  source_snapshot : String → VolumeContentSource
  source_volume : String → VolumeContentSource

pub record CreateVolumeRequest : Type 0 where
  pub name : String
  pub capacity_range : Option CapacityRange
  pub volume_capabilities : List VolumeCapability
  pub parameters : Dict String
  pub volume_content_source : Option VolumeContentSource
  pub accessibility_requirements : Option TopologyRequirement

-- csi.Volume
pub record Volume : Type 0 where
  pub volume_id : String
  pub capacity_bytes : ℤ
  pub accessible_topology : List Topology
  pub volume_context : Dict String
  pub content_source : Option VolumeContentSource

pub record ControllerGetVolumeResponse : Type 0 where
  pub volume : Volume
  pub published_node_ids : List String

pub record PublishRequest : Type 0 where
  pub volume_id : String
  pub node_id : String
  pub volume_capability : Option VolumeCapability

pub record ListRequest : Type 0 where
  pub max_entries : ℤ
  pub starting_token : String

pub record ListVolumesEntry : Type 0 where
  pub volume : Volume
  pub published_node_ids : List String

pub record ListVolumesResponse : Type 0 where
  pub entries : List ListVolumesEntry
  pub next_token : String

-- csi.Snapshot
pub record Snapshot : Type 0 where
  pub size_bytes : ℤ
  pub snapshot_id : String
  pub source_volume_id : String
  pub creation_time : ℕ
  pub ready_to_use : Bool

pub record ListSnapshotsRequest : Type 0 where
  pub max_entries : ℤ
  pub starting_token : String
  pub source_volume_id : String
  pub snapshot_id : String

pub record ListSnapshotsResponse : Type 0 where
  pub entries : List Snapshot
  pub next_token : String

pub record ExpandRequest : Type 0 where
  pub volume_id : String
  pub capacity_range : Option CapacityRange

pub record ExpandResponse : Type 0 where
  pub capacity_bytes : ℤ
  pub node_expansion_required : Bool

-- ValidateVolumeCapabilitiesResponse: the confirmed capabilities, if any, or a message
pub record ValidateResponse : Type 0 where
  pub confirmed : Option (List VolumeCapability)
  pub message : String

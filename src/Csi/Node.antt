-- ===== src/Csi/Node.antt =====
-- The CSI messages of the node service, with the fields that the drivers use.
use huaweicloud_csi_driver.Prelude.{ℕ, String, Bool, Option, ℤ}
use huaweicloud_csi_driver.Prelude.Dict.{Dict}
use huaweicloud_csi_driver.Csi.{VolumeCapability, Topology}

pub record NodeStageRequest : Type 0 where
  pub volume_id : String
  pub staging_target_path : String
  pub volume_capability : Option VolumeCapability

pub record NodePublishRequest : Type 0 where
  pub volume_id : String
  pub staging_target_path : String
  pub target_path : String
  pub volume_capability : Option VolumeCapability
  pub readonly : Bool
  pub volume_context : Dict String

pub record NodeInfo : Type 0 where
  pub node_id : String
  pub accessible_topology : Option Topology
  pub max_volumes_per_node : ℕ

pub data UsageUnit : Type 0 where
  bytes inodes : UsageUnit

-- csi.VolumeUsage
pub record VolumeUsage : Type 0 where
  pub total : ℤ
  pub available : ℤ
  pub used : ℤ
  pub unit : UsageUnit

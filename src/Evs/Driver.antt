-- ===== src/Evs/Driver.antt =====
-- EvsDriver of pkg/evs/driver.go: what NewDriver sets and the handlers read.
use huaweicloud_csi_driver.Prelude.{String, Bool, false, ◌||◌, List, [], ◌∷◌, if◌then◌else◌, ℕ, eqb}
use huaweicloud_csi_driver.Status.{Result, ok, err, refuse, invalid_argument}
use huaweicloud_csi_driver.Config.{CloudCredentials}
use huaweicloud_csi_driver.Csi.{AccessMode, single_node_writer}

-- csi.ControllerServiceCapability_RPC_Type
pub data ControllerCapability : Type 0 where
  rpc_unknown create_delete_volume publish_unpublish_volume list_volumes : ControllerCapability
  get_capacity create_delete_snapshot list_snapshots clone_volume : ControllerCapability
  publish_readonly expand_volume list_volumes_published_nodes : ControllerCapability
  volume_condition get_volume single_node_multi_writer : ControllerCapability

-- The enum's numbers.
abbrev pub capability_number : ControllerCapability → ℕ
capability_number rpc_unknown = 0
capability_number create_delete_volume = 1
capability_number publish_unpublish_volume = 2
capability_number list_volumes = 3
capability_number get_capacity = 4
capability_number create_delete_snapshot = 5
capability_number list_snapshots = 6
capability_number clone_volume = 7
capability_number publish_readonly = 8
capability_number expand_volume = 9
capability_number list_volumes_published_nodes = 10
capability_number volume_condition = 11
capability_number get_volume = 12
capability_number single_node_multi_writer = 13

-- csi.NodeServiceCapability_RPC_Type, those that the driver names
pub data NodeCapability : Type 0 where
  stage_unstage_volume node_expand_volume get_volume_stats : NodeCapability

pub record EvsDriver : Type 0 where
  pub node_id : String
  pub endpoint : String
  pub cluster : String
  pub cloud_credentials : CloudCredentials
  pub vcap : List AccessMode
  pub cscap : List ControllerCapability
  pub nscap : List NodeCapability

unfoldable pub new_driver : CloudCredentials → String → String → String → EvsDriver
new_driver cc endpoint cluster node_id = record {
  node_id = node_id;
  endpoint = endpoint;
  cluster = cluster;
  cloud_credentials = cc;
  vcap = single_node_writer ∷ [];
  cscap =
      list_volumes ∷ create_delete_volume ∷ publish_unpublish_volume ∷ create_delete_snapshot
      ∷ list_snapshots ∷ expand_volume ∷ list_volumes_published_nodes ∷ get_volume ∷ [];
  nscap = stage_unstage_volume ∷ node_expand_volume ∷ get_volume_stats ∷ [];
}

unfoldable pub has_capability : ControllerCapability → List ControllerCapability → Bool
has_capability c [] = false
has_capability c (capability ∷ rest) =
    eqb (capability_number c) (capability_number capability) || has_capability c rest

-- ValidateControllerServiceRequest
unfoldable pub validate_controller_service_request :
    EvsDriver → ControllerCapability → Result (Unit {0})
unfolding has_capability
validate_controller_service_request d rpc_unknown = ok tt
validate_controller_service_request d capability =
    if has_capability capability d.cscap then ok tt else err (refuse invalid_argument)

-- ===== src/Obs/Driver.antt =====
-- Driver of pkg/obs/driver.go: what NewDriver sets and the handlers read.
use huaweicloud_csi_driver.Prelude.{String, List, [], ◌∷◌, if◌then◌else◌}
use huaweicloud_csi_driver.Status.{Result, ok, err, refuse, invalid_argument}
use huaweicloud_csi_driver.Config.{CloudCredentials}
use huaweicloud_csi_driver.Csi.{
  AccessMode, mode_unknown, single_node_writer, single_node_reader_only, multi_node_reader_only,
  multi_node_single_writer, multi_node_multi_writer, single_node_multi_writer,
  single_node_single_writer,
}
use huaweicloud_csi_driver.Evs.Driver.{
  ControllerCapability, rpc_unknown, create_delete_volume, list_volumes, expand_volume, get_volume,
  NodeCapability, get_volume_stats, has_capability,
}

pub record ObsDriver : Type 0 where
  pub endpoint : String
  pub cloud : CloudCredentials
  pub vcap : List AccessMode
  pub cscap : List ControllerCapability
  pub nscap : List NodeCapability

-- NewDriver
unfoldable pub new_obs_driver : String → CloudCredentials → ObsDriver
new_obs_driver endpoint cloud = record {
  endpoint = endpoint;
  cloud = cloud;
  vcap =
      mode_unknown ∷ single_node_writer ∷ single_node_reader_only ∷ multi_node_reader_only
      ∷ multi_node_single_writer ∷ multi_node_multi_writer ∷ single_node_multi_writer
      ∷ single_node_single_writer ∷ [];
  cscap = create_delete_volume ∷ list_volumes ∷ expand_volume ∷ get_volume ∷ [];
  nscap = get_volume_stats ∷ [];
}

-- ValidateControllerServiceRequest
unfoldable pub validate_obs_request : ObsDriver → ControllerCapability → Result (Unit {0})
unfolding has_capability
validate_obs_request d rpc_unknown = ok tt
validate_obs_request d capability =
    if has_capability capability d.cscap then ok tt else err (refuse invalid_argument)

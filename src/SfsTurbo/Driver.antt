-- ===== src/SfsTurbo/Driver.antt =====
-- SfsTurboDriver of pkg/sfsturbo/driver.go: what NewDriver sets and the handlers read.
use huaweicloud_csi_driver.Prelude.{String, List, [], ◌∷◌, if◌then◌else◌}
use huaweicloud_csi_driver.Status.{Result, ok, err, refuse, invalid_argument}
use huaweicloud_csi_driver.Utils.Upper.{to_upper}
use huaweicloud_csi_driver.Config.{CloudCredentials}
use huaweicloud_csi_driver.Csi.{
  AccessMode, mode_unknown, single_node_writer, single_node_reader_only, multi_node_reader_only,
  multi_node_multi_writer, single_node_single_writer, single_node_multi_writer,
}
use huaweicloud_csi_driver.Evs.Driver.{
  ControllerCapability, rpc_unknown, create_delete_volume, list_volumes, expand_volume, get_volume,
  NodeCapability, get_volume_stats, node_expand_volume, has_capability,
}

pub record SfsTurboDriver : Type 0 where
  pub endpoint : String
  pub share_proto : String
  pub cloud : CloudCredentials
  pub vcap : List AccessMode
  pub cscap : List ControllerCapability
  pub nscap : List NodeCapability

unfoldable pub new_sfs_turbo_driver : String → String → CloudCredentials → SfsTurboDriver
unfolding to_upper
new_sfs_turbo_driver endpoint share_proto cloud = record {
  endpoint = endpoint;
  share_proto = to_upper share_proto;
  cloud = cloud;
  vcap =
      mode_unknown ∷ single_node_writer ∷ single_node_reader_only ∷ multi_node_reader_only
      ∷ multi_node_multi_writer ∷ single_node_single_writer ∷ single_node_multi_writer ∷ [];
  cscap = create_delete_volume ∷ list_volumes ∷ expand_volume ∷ get_volume ∷ [];
  nscap = get_volume_stats ∷ node_expand_volume ∷ [];
}

-- ValidateControllerServiceRequest
unfoldable pub validate_turbo_request : SfsTurboDriver → ControllerCapability → Result (Unit {0})
validate_turbo_request d rpc_unknown = ok tt
validate_turbo_request d capability =
    if has_capability capability d.cscap then ok tt else err (refuse invalid_argument)

-- ===== src/Sfs/Driver.antt =====
-- SfsDriver of pkg/sfs/driver.go, and the client of pkg/sfs/config/cloud.go, whose newServiceClient is that
-- of pkg/config with a catalog of its own.
use huaweicloud_csi_driver.Prelude.{String, List, [], ◌∷◌, if◌then◌else◌}
use huaweicloud_csi_driver.Prelude.Dict.{Dict, lookup}
use huaweicloud_csi_driver.Status.{Result, ok, err, refuse, invalid_argument}
use huaweicloud_csi_driver.Utils.Upper.{to_upper}
use huaweicloud_csi_driver.Config.{
  CloudCredentials, ServiceClient, ServiceCatalog, catalog, client_for,
}
use huaweicloud_csi_driver.Csi.{
  AccessMode, single_node_writer, single_node_reader_only, multi_node_reader_only,
  multi_node_single_writer, multi_node_multi_writer,
}
use huaweicloud_csi_driver.Evs.Driver.{
  ControllerCapability, rpc_unknown, create_delete_volume, NodeCapability, get_volume_stats,
  has_capability,
}

-- allServiceCatalog of pkg/sfs/config
abbrev pub sfs_catalog : Dict ServiceCatalog
sfs_catalog = ("sfsV2", catalog "sfs" "v2") ∷ []

-- SFSV2Client of pkg/sfs/config
unfoldable pub sfs_client : CloudCredentials → Result ServiceClient
sfs_client cc = client_for cc "sfsV2" (lookup "sfsV2" sfs_catalog) cc.region

pub record SfsDriver : Type 0 where
  pub node_id : String
  pub endpoint : String
  pub share_proto : String
  pub cloud : CloudCredentials
  pub vcap : List AccessMode
  pub cscap : List ControllerCapability
  pub nscap : List NodeCapability

unfoldable pub new_sfs_driver : String → String → String → CloudCredentials → SfsDriver
unfolding to_upper
new_sfs_driver node_id endpoint share_proto cloud = record {
  node_id = node_id;
  endpoint = endpoint;
  share_proto = to_upper share_proto;
  cloud = cloud;
  vcap =
      multi_node_multi_writer ∷ multi_node_single_writer ∷ multi_node_reader_only
      ∷ single_node_writer ∷ single_node_reader_only ∷ [];
  cscap = create_delete_volume ∷ [];
  nscap = get_volume_stats ∷ [];
}

-- ValidateControllerServiceRequest
unfoldable pub validate_sfs_request : SfsDriver → ControllerCapability → Result (Unit {0})
validate_sfs_request d rpc_unknown = ok tt
validate_sfs_request d capability =
    if has_capability capability d.cscap then ok tt else err (refuse invalid_argument)

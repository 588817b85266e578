-- ===== src/SfsTurbo/Tests/Nodes.antt =====
-- A test of the node server of the SFS Turbo driver.
use huaweicloud_csi_driver.Prelude.{◌≡◌, refl, ◌<>◌, false, some, [], ◌∷◌}
use huaweicloud_csi_driver.Status.{ok}
use huaweicloud_csi_driver.Effect.{attempt}
use huaweicloud_csi_driver.Utils.Text.{trim_space}
use huaweicloud_csi_driver.Common.Tests.{instant_timer}
use huaweicloud_csi_driver.Config.{new_service_client, sfs_turbo_v1_client}
use huaweicloud_csi_driver.Config.Access.{get_sfs_turbo_v1_client}
use huaweicloud_csi_driver.Csi.{single_node_writer, mount}
use huaweicloud_csi_driver.Csi.Node.{NodePublishRequest}
use huaweicloud_csi_driver.Node.Host.{Host}
use huaweicloud_csi_driver.Node.Mounts.{IMount, mount_provider}
use huaweicloud_csi_driver.Node.Shell.{run, is_mounted, make_target_dir}
use huaweicloud_csi_driver.Node.Tests.{without_cache}
use huaweicloud_csi_driver.SfsTurbo.Services.{get_share}
use huaweicloud_csi_driver.SfsTurbo.Node.{node_publish_turbo, turbo_publish_validation, mount_turbo}
use huaweicloud_csi_driver.SfsTurbo.Tests.{World, small_cloud, driver, data_share, start}

-- A host that logs its mounts.
abbrev node_host : Host World
node_host = record without_cache {
  mount = λ source target fs_type options w.
      (ok tt, record w { requests = ("mount " <> source) ∷ w.requests });
}

abbrev mounter : IMount World
mounter = mount_provider node_host instant_timer

abbrev publish_request : NodePublishRequest
publish_request = record {
  volume_id = "share-1";
  staging_target_path = "";
  target_path = "/var/lib/pods/target";
  volume_capability =
      some (record { access_mode = some single_node_writer; access_type = mount "nfs" [] });
  readonly = false;
  volume_context = [];
}

abbrev after_mount : World
after_mount = record start { requests = ("mount " <> data_share.export_location) ∷ start.requests }

published :
    node_publish_turbo small_cloud node_host mounter driver publish_request start
    ≡ (ok tt, after_mount)
unfolding node_publish_turbo turbo_publish_validation mount_turbo is_mounted run make_target_dir
    get_share get_sfs_turbo_v1_client sfs_turbo_v1_client new_service_client trim_space attempt
published = refl

-- ===== src/Evs/Tests/Nodes.antt =====
-- Tests of the EVS node server and of its theorems.
use huaweicloud_csi_driver.Prelude.{◌≡◌, refl, ◌<>◌, String, false, none, some, [], ◌∷◌}
use huaweicloud_csi_driver.Status.{ok, err, panic}
use huaweicloud_csi_driver.Effect.{attempt, with_variable}
use huaweicloud_csi_driver.Effect.Keeps.{Keeps}
use huaweicloud_csi_driver.Utils.Text.{slice_to, dir, trim_space}
use huaweicloud_csi_driver.Common.Tests.{instant_timer, instant_timer-IsTimer, poll_times}
use huaweicloud_csi_driver.Config.{new_service_client, evs_v2_client}
use huaweicloud_csi_driver.Config.Access.{get_evs_v2_client}
use huaweicloud_csi_driver.Csi.{single_node_writer, block}
use huaweicloud_csi_driver.Csi.Node.{NodeStageRequest, NodePublishRequest}
use huaweicloud_csi_driver.Evs.Services.Volumes.{get_volume}
use huaweicloud_csi_driver.Node.Host.{Host}
use huaweicloud_csi_driver.Node.Mounts.{
  IMount, mount_provider, get_device_path, device_condition, get_device_path_by_serial_id,
  with_short_id, path_by_serial_id, first_candidate, probe_volume, scan_hosts,
}
use huaweicloud_csi_driver.Node.Metadatas.{
  IMetadata, metadata_service, metadata_device_path, path_of_device, get_from_metadata_service,
  parse_instance_metadata,
}
use huaweicloud_csi_driver.Node.Tests.{without_cache}
use huaweicloud_csi_driver.Evs.Node.{
  node_stage_volume, node_device_path, device_path_of, device_path_by_id,
}
use huaweicloud_csi_driver.Evs.Node.Publish.{node_publish_block, ensure_dir}
use huaweicloud_csi_driver.Evs.Node.Ephemeral.{BlockMounted, node_publish_block-BlockMounted}
use huaweicloud_csi_driver.Evs.Node.Panics.{device_path_of-panics}
use huaweicloud_csi_driver.Evs.Node.Safety.{SearchesKeep, node_stage_volume-Keeps}
use huaweicloud_csi_driver.Evs.Tests.{
  World, small_cloud, driver, data_volume, start, capability, Never, logged,
  small_cloud-QueriesKeep,
}

-- A host that logs its mounts.
abbrev node_host : Host World
node_host = record without_cache {
  mount = λ source target fs_type options w. (ok tt, logged ("mount " <> source) w);
  format_and_mount = λ source target fs_type options w. (ok tt, logged "format" w);
}

abbrev mounter : IMount World
mounter = mount_provider node_host instant_timer

abbrev stage_request : NodeStageRequest
stage_request = record {
  volume_id = "vol-1";
  staging_target_path = "/var/lib/staging";
  volume_capability = some capability;
}

-- A mounter that finds something mounted everywhere.
abbrev all_mounted : IMount World
all_mounted = record {
  get_device_path = λ id w. (ok "/dev/vdb", w);
  is_likely_not_mount_point_attach = λ target w. (ok false, w);
  unmount_path = λ target w. (ok tt, logged "unmount" w);
  make_file = λ path w. (ok tt, w);
  make_dir = λ path w. (ok tt, w);
  get_device_stats = mounter.get_device_stats;
  get_mount_fs = λ path w. (ok "/dev/vdb", w);
}

all_mounted-SearchesKeep : (P : World → Type 0) → SearchesKeep node_host all_mounted P
all_mounted-SearchesKeep P = record {
  http_get = λ url. record { at = λ w h. h };
  glob = λ pattern. record { at = λ w h. h };
  get_device_path = λ id. record { at = λ w h. h };
  tests_mount = λ target. record { at = λ w h. h };
  need_resize = λ device target. record { at = λ w h. h };
  resize = λ device target. record { at = λ w h. h };
}

node_stage_volume-Keeps_example :
    Keeps
      (Never "format")
      (node_stage_volume small_cloud node_host all_mounted driver stage_request)
node_stage_volume-Keeps_example =
    node_stage_volume-Keeps small_cloud node_host all_mounted driver instant_timer-IsTimer
      (small_cloud-QueriesKeep (Never "format")) (all_mounted-SearchesKeep (Never "format"))
      stage_request (λ s e. cc e)

-- The metadata of the node.
abbrev node_metadata : IMetadata World
node_metadata = record {
  get_instance_id = λ w. (ok "node-1", w);
  get_availability_zone = λ w. (ok "cn-north-4a", w);
}

-- An ephemeral volume, with an id that the cloud happens to have.
abbrev ephemeral_request : NodePublishRequest
ephemeral_request = record {
  volume_id = "vol-1";
  staging_target_path = "/var/lib/staging";
  target_path = "/var/lib/pods/target";
  volume_capability = some capability;
  readonly = false;
  volume_context =
      ("csi.storage.k8s.io/ephemeral", "true") ∷ ("capacity", "20Gi") ∷ ("type", "SSD") ∷ [];
}

-- The new volume was created and attached; something is mounted at the target already.
abbrev after_publication : World
after_publication = record {
  volumes =
      data_volume
      ∷ record data_volume {
        id = "vol-new";
        name = "ephemeral-vol-1";
        status = "in-use";
        attachments = record { server_id = "node-1"; device = "/dev/vdb" } ∷ [];
      }
      ∷ [];
  requests = "attach" ∷ "create" ∷ [];
}

abbrev block_request : NodePublishRequest
block_request = record ephemeral_request {
  volume_id = "vol-1";
  volume_capability = some (record { access_mode = some single_node_writer; access_type = block });
  volume_context = [];
}

abbrev after_mount : World
after_mount = logged "mount /dev/vdb" start

block_published :
    node_publish_block small_cloud node_host all_mounted
      (metadata_service node_host "metadataService")
      driver
      block_request
      start
    ≡ (ok tt, after_mount)
unfolding node_publish_block node_device_path device_path_of device_path_by_id ensure_dir get_volume
    get_evs_v2_client evs_v2_client new_service_client dir trim_space attempt
block_published = refl

node_publish_block-BlockMounted_example :
    BlockMounted small_cloud node_host all_mounted
      (metadata_service node_host "metadataService")
      driver
      block_request
      after_mount
node_publish_block-BlockMounted_example =
    node_publish_block-BlockMounted small_cloud node_host all_mounted
      (metadata_service node_host "metadataService") driver block_request start after_mount
      block_published

-- A host that has no device of the volume: the search by the id times out.
abbrev bare_host : Host World
bare_host = record node_host { read_dir = λ path w. (ok [], w); glob = λ pattern w. (ok [], w) }

abbrev long_id : String
long_id = "7f3a1c52-90be-4d1f-8a53-2f0e64b1c9d7"

first_search :
    device_path_by_id small_cloud bare_host
      (mount_provider bare_host instant_timer)
      driver
      long_id
      start
    ≡ (ok "", start)
unfolding device_path_by_id mount_provider get_device_path device_condition
    get_device_path_by_serial_id with_short_id path_by_serial_id first_candidate probe_volume
    scan_hosts poll_times with_variable slice_to metadata_device_path path_of_device
    get_from_metadata_service parse_instance_metadata attempt
first_search = refl

short_wwn : slice_to 20 "" ≡ none
unfolding slice_to
short_wwn = refl

device_path_of-panics_example :
    device_path_of small_cloud bare_host
      (mount_provider bare_host instant_timer)
      driver
      data_volume
      long_id
      start
    ≡ (err panic, start)
device_path_of-panics_example =
    device_path_of-panics small_cloud bare_host instant_timer-IsTimer driver data_volume long_id
      start start first_search short_wwn

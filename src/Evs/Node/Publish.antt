-- ===== src/Evs/Node/Publish.antt =====
-- NodePublishVolume and NodeUnpublishVolume of pkg/evs/nodeserver.go, with the ephemeral and the block
-- volumes.
use huaweicloud_csi_driver.Prelude.{
  String, ◌<>◌, ◌==◌, Bool, true, false, Option, none, some, List, [], ◌∷◌, if◌then◌else◌, ℤ, pos,
}
use huaweicloud_csi_driver.Prelude.Dict.{get, lookup}
use huaweicloud_csi_driver.Status.{
  Error, wrapping, refuse, unless_panic, is_not_found, unknown, internal, invalid_argument,
  not_found, failed_precondition,
}
use huaweicloud_csi_driver.Effect.{M, pure, fail, attempt, ◌>>=◌, ◌>>◌, map_error}
use huaweicloud_csi_driver.Utils.Text.{before_suffix, dir}
use huaweicloud_csi_driver.Utils.Decimal.{atoi}
use huaweicloud_csi_driver.Csi.{AccessType, VolumeCapability}
use huaweicloud_csi_driver.Csi.Node.{NodePublishRequest}
use huaweicloud_csi_driver.Evs.Sdk.{Cloud, Volume, Attachment, CreateOpts}
use huaweicloud_csi_driver.Evs.Driver.{EvsDriver}
use huaweicloud_csi_driver.Evs.Services.Volumes.{
  get_volume, list_volumes, create_volume_completed, delete_volume,
}
use huaweicloud_csi_driver.Evs.Services.Computes.{attach_volume_completed, detach_volume_completed}
use huaweicloud_csi_driver.Node.Host.{Host}
use huaweicloud_csi_driver.Node.Mounts.{IMount}
use huaweicloud_csi_driver.Node.Metadatas.{IMetadata}
use huaweicloud_csi_driver.Evs.Node.{is_block, fs_type_of, node_device_path, mount_formatted}

abbrev pub bind_options : Bool → List String
bind_options readonly = "bind" ∷ (if readonly then "ro" else "rw") ∷ []

abbrev pub ephemeral_name : String → String
ephemeral_name volume_id = "ephemeral-" <> volume_id

-- strconv.Atoi of a size in "Gi"; any other size, and none, is the default.
abbrev pub parsed_size : {S : Type 0} → Option ℤ → M S ℤ
parsed_size none = fail (refuse unknown)
parsed_size (some size) = pure size

abbrev pub size_in_gi : {S : Type 0} → Option String → M S ℤ
size_in_gi none = pure (pos 10)
size_in_gi (some digits) = parsed_size (atoi digits)

unfoldable pub ephemeral_size : {S : Type 0} → Option String → M S ℤ
unfolding atoi before_suffix
ephemeral_size none = pure (pos 10)
ephemeral_size (some capacity) = size_in_gi (before_suffix "Gi" capacity)

-- The options of an ephemeral volume.
unfoldable pub ephemeral_opts : EvsDriver → NodePublishRequest → String → ℤ → CreateOpts
ephemeral_opts d req zone size =
    let storage_id = get req.volume_context "dedicated_storage_id" in
    record {
      volume = record {
        name = ephemeral_name req.volume_id;
        size = size;
        volume_type = get req.volume_context "type";
        availability_zone = zone;
        snapshot_id = "";
        metadata =
            ("evs.csi.huaweicloud.com/cluster", d.cluster)
            ∷ ("create_for_volume_id", "true")
            ∷ ("dedicated_storage_id", storage_id)
            ∷ [];
        iops = pos 0;
        throughput = pos 0;
      };
      storage_id = storage_id;
    }

module _ (C : Cloud) (h : Host C.State) (m : IMount C.State) (md : IMetadata C.State)
    (d : EvsDriver) where
  open C use {State}

  -- nodePublishValidation returns the capability, which is there.
  unfoldable pub node_publish_validation :
      NodePublishRequest → Option VolumeCapability → M State VolumeCapability
  node_publish_validation req none = fail (refuse invalid_argument)
  node_publish_validation req (some capability) =
      if req.volume_id == ""
      then fail (refuse invalid_argument)
      else if req.target_path == ""
      then fail (refuse invalid_argument)
      else if req.staging_target_path == ""
      then fail (refuse invalid_argument)
      else (do get_volume C d.cloud_credentials req.volume_id; pure capability)

  -- nodePublishEphemeral
  unfoldable pub node_publish_ephemeral : NodePublishRequest → AccessType → M State (Unit {0})
  node_publish_ephemeral req access_type = do
    zone ← map_error (wrapping internal) md.get_availability_zone
    size ← ephemeral_size (lookup "capacity" req.volume_context)
    volume_id ←
        map_error (wrapping internal)
          (create_volume_completed C d.cloud_credentials (ephemeral_opts d req zone size))
    instance_id ← map_error (wrapping internal) md.get_instance_id
    map_error (wrapping internal)
        (attach_volume_completed C d.cloud_credentials instance_id volume_id)
    device_path ← map_error (unless_panic (wrapping internal)) (node_device_path C h m d volume_id)
    mount_formatted C h m d device_path req.target_path access_type

  -- A target that could not be mounted is removed; the error is that of the mount.
  unfoldable pub remove_target : String → Error → M State (Unit {0})
  remove_target target_path e =
      attempt (h.remove target_path) (λ _. fail (wrapping internal e))
        (λ _. fail (wrapping internal e))

  unfoldable pub ensure_dir : String → M State (Unit {0})
  ensure_dir path = do
    exists ← map_error (wrapping internal) (h.exists path)
    if exists then pure tt else map_error (wrapping internal) (m.make_dir path)

  -- nodePublishVolumeForBlock
  unfoldable pub node_publish_block : NodePublishRequest → M State (Unit {0})
  unfolding dir
  node_publish_block req = do
    source ← map_error (unless_panic (wrapping internal)) (node_device_path C h m d req.volume_id)
    ensure_dir (dir req.target_path)
    map_error (wrapping internal) (m.make_file req.target_path)
    attempt (h.mount source req.target_path "" (bind_options req.readonly))
        (remove_target req.target_path) pure

  -- The rest of NodePublishVolume, for a volume with a file system.
  unfoldable pub node_publish_mount : NodePublishRequest → AccessType → M State (Unit {0})
  unfolding fs_type_of
  node_publish_mount req access_type = do
    not_mnt ← map_error (wrapping internal) (m.is_likely_not_mount_point_attach req.target_path)
    if not_mnt
        then map_error (wrapping internal) (
            h.mount req.staging_target_path req.target_path (fs_type_of access_type)
              (bind_options req.readonly))
        else pure tt

  -- NodePublishVolume
  unfoldable pub node_publish_volume : NodePublishRequest → M State (Unit {0})
  node_publish_volume req = do
    capability ← node_publish_validation req req.volume_capability
    if get req.volume_context "csi.storage.k8s.io/ephemeral" == "true"
        then node_publish_ephemeral req capability.access_type
        else if is_block capability.access_type
        then node_publish_block req
        else node_publish_mount req capability.access_type

  -- nodeUnpublishEphemeral
  unfoldable pub node_unpublish_ephemeral : Volume → List Attachment → M State (Unit {0})
  node_unpublish_ephemeral vol [] = fail (refuse failed_precondition)
  node_unpublish_ephemeral vol (attachment ∷ rest) = do
    map_error (wrapping internal)
        (detach_volume_completed C d.cloud_credentials attachment.server_id vol.id)
    map_error (wrapping internal) (delete_volume C d.cloud_credentials vol.id)

  -- The volume to unpublish, and whether it is an ephemeral one, which is found by its name.
  unfoldable pub first_ephemeral : List Volume → M State (Volume × Bool)
  first_ephemeral [] = fail (refuse not_found)
  first_ephemeral (vol ∷ rest) = pure (vol, true)

  unfoldable pub find_by_name : String → Error → M State (Volume × Bool)
  find_by_name volume_id e =
      if is_not_found e
      then (do
        vols ← map_error (wrapping internal) (
            list_volumes C d.cloud_credentials
              (record { name = ephemeral_name volume_id; marker = ""; limit = pos 0 }))
        first_ephemeral vols)
      else fail (wrapping internal e)

  -- NodeUnpublishVolume behind the query.
  unfoldable pub unmount_found : String → Volume → Bool → M State (Unit {0})
  unmount_found target_path vol ephemeral = do
    map_error (wrapping unknown) (m.unmount_path target_path)
    if ephemeral then node_unpublish_ephemeral vol vol.attachments else pure tt

  -- NodeUnpublishVolume behind its validation.
  unfoldable pub unpublish_checked : String → String → M State (Unit {0})
  unpublish_checked volume_id target_path = do
    found ←
        attempt (get_volume C d.cloud_credentials volume_id) (find_by_name volume_id)
          (λ vol. pure (vol, false))
    unmount_found target_path found.0 found.1

  -- NodeUnpublishVolume
  unfoldable pub node_unpublish_volume : String → String → M State (Unit {0})
  node_unpublish_volume volume_id target_path =
      if target_path == ""
      then fail (refuse invalid_argument)
      else if volume_id == ""
      then fail (refuse invalid_argument)
      else unpublish_checked volume_id target_path

-- ===== src/Obs/Node.antt =====
-- The node service of the OBS driver (pkg/obs/nodeserver.go).
pub mod Outcome
use huaweicloud_csi_driver.Prelude.{
  String, ◌<>◌, ◌==◌, Bool, Option, none, some, List, [], ◌∷◌, if◌then◌else◌, ℤ, pos, eqb_ℤ, wrap,
  ◌-ℤ◌,
}
use huaweicloud_csi_driver.Prelude.Dict.{Dict}
use huaweicloud_csi_driver.Status.{
  Error, wrapping, refuse, unknown, internal, invalid_argument, unimplemented,
}
use huaweicloud_csi_driver.Effect.{M, pure, fail, attempt, ◌>>=◌, ◌>>◌, map_error, deferred}
use huaweicloud_csi_driver.Utils.Text.{dir}
use huaweicloud_csi_driver.Utils.Sha256.{Bytes, sha256}
use huaweicloud_csi_driver.Utils.Aes.{encrypt_aes_cbc}
use huaweicloud_csi_driver.Csi.{VolumeCapability}
use huaweicloud_csi_driver.Csi.Node.{NodePublishRequest, NodeInfo, VolumeUsage, bytes, inodes}
use huaweicloud_csi_driver.Evs.Driver.{NodeCapability}
use huaweicloud_csi_driver.Evs.Node.{stats_validation}
use huaweicloud_csi_driver.Node.Host.{Host}
use huaweicloud_csi_driver.Node.Mounts.{IMount, DeviceStats}
use huaweicloud_csi_driver.Node.Metadatas.{IMetadata}
use huaweicloud_csi_driver.Obs.Sdk.{ObsCloud}
use huaweicloud_csi_driver.Obs.Driver.{ObsDriver}
use huaweicloud_csi_driver.Obs.Services.Buckets.{Bucket, get_parallel_fs_bucket, get_bucket_storage}
use huaweicloud_csi_driver.Obs.Command.{
  CommandRpc, action_mount, Channel, credential_dir, send_command,
}

-- The keys of the account, and Secret, which the linker sets.
pub record Keys : Type 0 where
  pub access_key : String
  pub secret_key : String
  pub secret : Bytes

-- The parameters of a mount command.
unfoldable pub mount_parameters : ObsDriver → String → String → String → Dict String
mount_parameters d bucket_name target_path credential_file =
    ("bucketName", bucket_name)
    ∷ ("targetPath", target_path)
    ∷ ("region", d.cloud.region)
    ∷ ("cloud", d.cloud.cloud)
    ∷ ("credential", credential_file)
    ∷ []

-- A value of the cloud replaces that of the host, unless it is 0.
abbrev or_stat : ℤ → ℤ → ℤ
or_stat reported stat = if eqb_ℤ reported (pos 0) then stat else reported

-- The usage of NodeGetVolumeStats, for the bucket's capacity and what is used of it.
unfoldable pub bucket_usage : DeviceStats → ℤ → ℤ → List VolumeUsage
bucket_usage stats capacity used =
    record {
      total = or_stat capacity stats.total_bytes;
      available = wrap (or_stat capacity stats.total_bytes -ℤ or_stat used stats.used_bytes);
      used = or_stat used stats.used_bytes;
      unit = bytes;
    }
    ∷ record {
      total = stats.total_inodes;
      available = stats.available_inodes;
      used = stats.used_inodes;
      unit = inodes;
    }
    ∷ []

module _ (C : ObsCloud) (h : Host C.State) (m : IMount C.State) (c : Channel C.State) (keys : Keys)
    (d : ObsDriver) where
  open C use {State}

  -- nodePublishValidation
  unfoldable pub obs_publish_validation :
      Option VolumeCapability → String → String → M State (Unit {0})
  obs_publish_validation none volume_id target = fail (refuse invalid_argument)
  obs_publish_validation (some capability) volume_id target =
      if volume_id == ""
      then fail (refuse invalid_argument)
      else if target == ""
      then fail (refuse invalid_argument)
      else pure tt

  -- createCredentialFile
  unfoldable pub create_credential_file : String → M State (Unit {0})
  unfolding dir
  create_credential_file file = do
    map_error (wrapping internal) (h.mkdir_all (dir file))
    map_error (wrapping internal) (c.open_truncated file)
    c.write_line file (keys.access_key <> (":" <> keys.secret_key))

  -- The command is signed with a token and sent.
  unfoldable pub mount_bucket : String → String → String → M State (Unit {0})
  unfolding mount_parameters
  mount_bucket bucket_name target_path credential_file = do
    token ←
        encrypt_aes_cbc c.library keys.secret
          (sha256 c.hash (mount_parameters d bucket_name target_path credential_file))
    map_error (wrapping internal) (
        send_command c (record {
          action = action_mount;
          token = token;
          parameters = mount_parameters d bucket_name target_path credential_file;
        }))

  -- The credentials are in a new file while the command runs.
  unfoldable pub mount_with_credentials : String → String → M State (Unit {0})
  mount_with_credentials bucket_name target_path = do
    id ← c.new_uuid
    create_credential_file (credential_dir <> ("/" <> id))
    deferred (c.remove_all (credential_dir <> ("/" <> id)))
        (mount_bucket bucket_name target_path (credential_dir <> ("/" <> id)))

  -- NodePublishVolume
  unfoldable pub node_publish_obs : NodePublishRequest → M State (Unit {0})
  node_publish_obs req = do
    obs_publish_validation req.volume_capability req.volume_id req.target_path
    volume ← get_parallel_fs_bucket C d.cloud req.volume_id
    not_mnt ← m.is_likely_not_mount_point_attach req.target_path
    if not_mnt
        then (do
          map_error (wrapping internal) (m.make_dir req.target_path)
          mount_with_credentials volume.bucket_name req.target_path)
        else pure tt

  -- NodeUnpublishVolume
  unfoldable pub node_unpublish_obs : String → String → M State (Unit {0})
  node_unpublish_obs volume_id target =
      if volume_id == ""
      then fail (refuse invalid_argument)
      else if target == ""
      then fail (refuse invalid_argument)
      else (do
        not_mnt ← m.is_likely_not_mount_point_attach target
        if not_mnt then pure tt else map_error (wrapping internal) (m.unmount_path target))

  -- NodeGetInfo
  unfoldable pub obs_node_info : IMetadata State → M State NodeInfo
  obs_node_info md = do
    node_id ← map_error (wrapping internal) md.get_instance_id
    pure (record { node_id = node_id; accessible_topology = none; max_volumes_per_node = 0 })

  -- NodeGetVolumeStats
  unfoldable pub obs_volume_stats : String → String → M State (List VolumeUsage)
  obs_volume_stats volume_id volume_path = do
    stats_validation h volume_id volume_path
    stats ← map_error (wrapping unknown) (m.get_device_stats volume_path)
    bucket ← get_parallel_fs_bucket C d.cloud volume_id
    storage ← get_bucket_storage C d.cloud volume_id
    pure (bucket_usage stats bucket.capacity storage.size)

  -- NodeGetCapabilities
  unfoldable pub obs_node_capabilities : M State (List NodeCapability)
  obs_node_capabilities = pure d.nscap

  -- NodeStageVolume, NodeUnstageVolume, NodeExpandVolume
  unfoldable pub obs_node_unsupported : M State (Unit {0})
  obs_node_unsupported = fail (refuse unimplemented)

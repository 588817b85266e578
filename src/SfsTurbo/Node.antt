-- ===== src/SfsTurbo/Node.antt =====
-- The node service of the SFS Turbo driver (pkg/sfsturbo/nodeserver.go).
pub mod Outcome
use huaweicloud_csi_driver.Prelude.{
  String, ◌==◌, Bool, Option, none, some, List, [], ◌∷◌, if◌then◌else◌,
}
use huaweicloud_csi_driver.Status.{
  Error, wrapping, refuse, is_not_found, unknown, internal, invalid_argument, not_found,
  unimplemented,
}
use huaweicloud_csi_driver.Effect.{M, pure, fail, attempt, ◌>>=◌, ◌>>◌, map_error}
use huaweicloud_csi_driver.Csi.{VolumeCapability}
use huaweicloud_csi_driver.Csi.Node.{NodePublishRequest, VolumeUsage, bytes, inodes}
use huaweicloud_csi_driver.Evs.Driver.{NodeCapability}
use huaweicloud_csi_driver.Evs.Node.{stats_validation}
use huaweicloud_csi_driver.SfsTurbo.Sdk.{TurboCloud, Turbo}
use huaweicloud_csi_driver.SfsTurbo.Driver.{SfsTurboDriver}
use huaweicloud_csi_driver.SfsTurbo.Services.{get_share}
use huaweicloud_csi_driver.Node.Host.{Host}
use huaweicloud_csi_driver.Node.Mounts.{IMount, DeviceStats}
use huaweicloud_csi_driver.Node.Shell.{is_mounted, make_target_dir}

abbrev pub turbo_mount_options : Bool → List String
turbo_mount_options readonly =
    "vers=3,timeo=600,noresvport,nolock" ∷ (if readonly then "ro" else "rw") ∷ []

abbrev pub share_error : Error → Error
share_error e = if is_not_found e then refuse not_found else wrapping internal e

-- The usage of NodeGetVolumeStats, which pkg/sfs reports too
unfoldable pub share_usage : DeviceStats → List VolumeUsage
share_usage stats =
    record {
      total = stats.total_bytes;
      available = stats.available_bytes;
      used = stats.used_bytes;
      unit = bytes;
    }
    ∷ record {
      total = stats.total_inodes;
      available = stats.available_inodes;
      used = stats.used_inodes;
      unit = inodes;
    }
    ∷ []

module _ (C : TurboCloud) (h : Host C.State) (m : IMount C.State) (d : SfsTurboDriver) where
  open C use {State}

  -- nodePublishValidation
  unfoldable pub turbo_publish_validation :
      Option VolumeCapability → String → String → M State (Unit {0})
  turbo_publish_validation none volume_id target = fail (refuse invalid_argument)
  turbo_publish_validation (some capability) volume_id target =
      if volume_id == ""
      then fail (refuse invalid_argument)
      else if target == ""
      then fail (refuse invalid_argument)
      else pure tt

  -- The share's location is mounted at a target where nothing is.
  unfoldable pub mount_turbo : String → String → Bool → M State (Unit {0})
  mount_turbo export_location target readonly = do
    mounted ← is_mounted h target
    if mounted then pure tt else (do
      map_error (wrapping internal) (make_target_dir h target)
      map_error (wrapping internal)
          (h.mount export_location target "nfs" (turbo_mount_options readonly)))

  -- NodePublishVolume
  unfoldable pub node_publish_turbo : NodePublishRequest → M State (Unit {0})
  node_publish_turbo req = do
    turbo_publish_validation req.volume_capability req.volume_id req.target_path
    share ← map_error share_error (get_share C d.cloud req.volume_id)
    if share.export_location == ""
        then fail (refuse internal)
        else mount_turbo share.export_location req.target_path req.readonly

  -- NodeUnpublishVolume
  unfoldable pub node_unpublish_turbo : String → String → M State (Unit {0})
  node_unpublish_turbo volume_id target =
      if volume_id == ""
      then fail (refuse invalid_argument)
      else if target == ""
      then fail (refuse invalid_argument)
      else (do
        not_mnt ← m.is_likely_not_mount_point_attach target
        if not_mnt then pure tt else map_error (wrapping internal) (m.unmount_path target))

  -- NodeGetVolumeStats
  unfoldable pub turbo_volume_stats : String → String → M State (List VolumeUsage)
  turbo_volume_stats volume_id volume_path = do
    stats_validation h volume_id volume_path
    stats ← map_error (wrapping unknown) (m.get_device_stats volume_path)
    pure (share_usage stats)

  -- NodeGetCapabilities
  unfoldable pub turbo_node_capabilities : M State (List NodeCapability)
  turbo_node_capabilities = pure d.nscap

  -- NodeStageVolume, NodeUnstageVolume, NodeExpandVolume
  unfoldable pub turbo_node_unsupported : M State (Unit {0})
  turbo_node_unsupported = fail (refuse unimplemented)

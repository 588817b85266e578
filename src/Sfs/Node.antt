-- ===== src/Sfs/Node.antt =====
-- The node service of the SFS driver (pkg/sfs/nodeserver.go).
use huaweicloud_csi_driver.Prelude.{
  String, ◌==◌, Bool, Option, none, some, List, [], ◌∷◌, if◌then◌else◌,
}
use huaweicloud_csi_driver.Status.{
  Error, wrapping, refuse, unknown, internal, invalid_argument, unimplemented,
}
use huaweicloud_csi_driver.Effect.{M, pure, fail, lift, attempt, ◌>>=◌, ◌>>◌, map_error}
use huaweicloud_csi_driver.Csi.{VolumeCapability}
use huaweicloud_csi_driver.Csi.Node.{NodePublishRequest, NodeInfo, VolumeUsage}
use huaweicloud_csi_driver.Evs.Driver.{NodeCapability}
use huaweicloud_csi_driver.Evs.Node.{stats_validation}
use huaweicloud_csi_driver.Sfs.Sdk.{SfsCloud, Share}
use huaweicloud_csi_driver.Sfs.Driver.{SfsDriver, sfs_client}
use huaweicloud_csi_driver.Sfs.Controller.{sfs_error}
use huaweicloud_csi_driver.SfsTurbo.Node.{share_usage}
use huaweicloud_csi_driver.Node.Host.{Host}
use huaweicloud_csi_driver.Node.Mounts.{IMount}
use huaweicloud_csi_driver.Node.Shell.{mount_nfs, unmount, is_mounted, make_target_dir}

abbrev first_location : List String → String
first_location [] = ""
first_location (location ∷ rest) = location

-- The location that is mounted: the share's own, and otherwise the first of its list.
unfoldable pub source_of : Share → String
source_of share =
    if share.export_location == ""
    then first_location share.export_locations
    else share.export_location

abbrev pub sfs_mount_options : Bool → String
sfs_mount_options readonly = if readonly then "noresvport,nolock,ro" else "noresvport,nolock"

module _ (C : SfsCloud) (h : Host C.State) (m : IMount C.State) (d : SfsDriver) where
  open C use {State}

  unfoldable pub sfs_publish_validation :
      Option VolumeCapability → String → String → M State (Unit {0})
  sfs_publish_validation none volume_id target = fail (refuse invalid_argument)
  sfs_publish_validation (some capability) volume_id target =
      if volume_id == ""
      then fail (refuse invalid_argument)
      else if target == ""
      then fail (refuse invalid_argument)
      else pure tt

  -- A target that could not be mounted is removed. The error is that of the removal, if it fails.
  unfoldable pub remove_sfs_target : String → Error → M State (Unit {0})
  remove_sfs_target target e =
      attempt (h.remove target) (λ remove_error. fail (wrapping internal remove_error))
        (λ _. fail (wrapping internal e))

  unfoldable pub mount_sfs : String → String → Bool → M State (Unit {0})
  mount_sfs source target readonly = do
    mounted ← is_mounted h target
    if mounted then pure tt else (do
      map_error (wrapping internal) (make_target_dir h target)
      attempt (mount_nfs h source target (sfs_mount_options readonly)) (remove_sfs_target target)
          pure)

  -- NodePublishVolume
  unfoldable pub node_publish_sfs : NodePublishRequest → M State (Unit {0})
  unfolding source_of
  node_publish_sfs req = do
    sfs_publish_validation req.volume_capability req.volume_id req.target_path
    client ← map_error (wrapping internal) (lift (sfs_client d.cloud))
    share ← map_error (sfs_error C) (C.shares_get client req.volume_id)
    if source_of share == ""
        then fail (refuse internal)
        else mount_sfs (source_of share) req.target_path req.readonly

  -- NodeUnpublishVolume
  unfoldable pub node_unpublish_sfs : String → String → M State (Unit {0})
  node_unpublish_sfs volume_id target =
      if volume_id == ""
      then fail (refuse invalid_argument)
      else if target == ""
      then fail (refuse invalid_argument)
      else (do
        mounted ← is_mounted h target
        if mounted then map_error (wrapping internal) (unmount h target) else pure tt)

  -- NodeGetInfo
  unfoldable pub sfs_node_info : M State NodeInfo
  sfs_node_info =
      pure (record { node_id = d.node_id; accessible_topology = none; max_volumes_per_node = 0 })

  -- NodeGetVolumeStats
  unfoldable pub sfs_volume_stats : String → String → M State (List VolumeUsage)
  sfs_volume_stats volume_id volume_path = do
    stats_validation h volume_id volume_path
    stats ← map_error (wrapping unknown) (m.get_device_stats volume_path)
    pure (share_usage stats)

  -- NodeGetCapabilities
  unfoldable pub sfs_node_capabilities : M State (List NodeCapability)
  sfs_node_capabilities = pure d.nscap

  -- NodeStageVolume, NodeUnstageVolume, NodeExpandVolume
  unfoldable pub sfs_node_unsupported : M State (Unit {0})
  sfs_node_unsupported = fail (refuse unimplemented)

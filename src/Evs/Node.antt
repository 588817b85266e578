-- ===== src/Evs/Node.antt =====
-- The node service of the EVS driver (pkg/evs/nodeserver.go): staging, expansion, statistics. Its child
-- Publish has NodePublishVolume and NodeUnpublishVolume.
pub mod Publish
pub mod Ephemeral
pub mod Inline
pub mod Panics
pub mod Safety
use huaweicloud_csi_driver.Prelude.{
  ℕ, String, ◌<>◌, ◌==◌, Bool, true, false, not, ◌||◌, Option, none, some, List, [], ◌∷◌, ◌++◌,
  if◌then◌else◌, ℤ, pos,
}
use huaweicloud_csi_driver.Status.{
  Error, wrapping, refuse, plain, panic, unless_panic, unknown, internal, invalid_argument,
}
use huaweicloud_csi_driver.Effect.{M, pure, fail, attempt, ◌>>=◌, ◌>>◌, map_error}
use huaweicloud_csi_driver.Utils.Text.{trim_space}
use huaweicloud_csi_driver.Csi.{AccessType, access_unset, block, mount, VolumeCapability}
use huaweicloud_csi_driver.Csi.Node.{NodeStageRequest, NodeInfo, VolumeUsage, bytes, inodes}
use huaweicloud_csi_driver.Evs.Sdk.{Cloud, Volume}
use huaweicloud_csi_driver.Evs.Driver.{EvsDriver, NodeCapability}
use huaweicloud_csi_driver.Evs.Services.Volumes.{get_volume}
use huaweicloud_csi_driver.Node.Host.{Host}
use huaweicloud_csi_driver.Node.Mounts.{IMount, DeviceStats}
use huaweicloud_csi_driver.Node.Metadatas.{IMetadata, metadata_device_path}

-- capability.GetBlock() != nil
abbrev pub is_block : AccessType → Bool
is_block block = true
is_block _ = false

-- The file system of a mount, ext4 where none is named.
unfoldable pub fs_type_of : AccessType → String
fs_type_of (mount fs_type flags) = if fs_type == "" then "ext4" else fs_type
fs_type_of _ = "ext4"

unfoldable pub collect_mount_options : String → List String → List String
collect_mount_options fs_type flags = if fs_type == "xfs" then flags ++ ("nouuid" ∷ []) else flags

-- The options of a mount request, with those of its file system.
unfoldable pub mount_options_of : AccessType → List String
unfolding fs_type_of collect_mount_options
mount_options_of (mount fs_type flags) =
    collect_mount_options (fs_type_of (mount fs_type flags)) flags
mount_options_of _ = []

-- The usage of NodeGetVolumeStats.
unfoldable pub usage_of : DeviceStats → List VolumeUsage
usage_of stats =
    if stats.block
    then record { total = stats.total_bytes; available = pos 0; used = pos 0; unit = bytes } ∷ []
    else record {
      total = stats.total_bytes;
      available = stats.available_bytes;
      used = stats.used_bytes;
      unit = bytes;
    }
      ∷ record {
        total = stats.total_inodes;
        available = stats.available_inodes;
        used = stats.used_inodes;
        unit = inodes;
      }
      ∷ []

-- nodeGetStatsValidation, which pkg/sfsturbo has too
unfoldable pub stats_validation : {S : Type 0} → Host S → String → String → M S (Unit {0})
stats_validation h volume_id volume_path =
    if volume_id == ""
    then fail (refuse invalid_argument)
    else if volume_path == ""
    then fail (refuse invalid_argument)
    else (do
      exists ← map_error (wrapping unknown) (h.exists volume_path)
      if exists then pure tt else fail (refuse unknown))

module _ (C : Cloud) (h : Host C.State) (m : IMount C.State) (d : EvsDriver) where
  open C use {State}

  abbrev pub nowhere : Error → M State String
  nowhere panic = fail panic
  nowhere e = pure ""

  -- getDevicePathByID: an error of the search on the host is dropped, and the metadata service is asked.
  unfoldable pub device_path_by_id : String → M State String
  device_path_by_id id = do
    device_path ← attempt (m.get_device_path id) nowhere pure
    if device_path == "" then metadata_device_path h id else pure device_path

  -- The two searches of getDevicePath, by the id or the WWN, and then by the WWN.
  unfoldable pub device_path_of : Volume → String → M State String
  device_path_of volume volume_id = do
    device_path ←
        device_path_by_id (if volume.hw_passthrough == "true" then volume.wwn else volume_id)
    found ← if device_path == "" then device_path_by_id volume.wwn else pure device_path
    if trim_space found == "" then fail (plain "can not get the \"devicePath\"") else pure found

  -- getDevicePath
  unfoldable pub node_device_path : String → M State String
  node_device_path volume_id = do
    volume ← get_volume C d.cloud_credentials volume_id
    device_path_of volume volume_id

  -- nodeStageValidation returns the volume and the capability, which is there.
  unfoldable pub stage_validation :
      String → String → Option VolumeCapability → M State (Volume × VolumeCapability)
  stage_validation volume_id target none = fail (refuse invalid_argument)
  stage_validation volume_id target (some capability) =
      if volume_id == ""
      then fail (refuse invalid_argument)
      else if target == ""
      then fail (refuse invalid_argument)
      else (do vol ← get_volume C d.cloud_credentials volume_id; pure (vol, capability))

  -- A volume is formatted and mounted where nothing is mounted, in NodeStageVolume and for an ephemeral
  -- volume.
  unfoldable pub mount_formatted : String → String → AccessType → M State (Unit {0})
  unfolding fs_type_of mount_options_of
  mount_formatted device_path target access_type = do
    not_mnt ← map_error (wrapping internal) (m.is_likely_not_mount_point_attach target)
    if not_mnt
        then map_error (wrapping internal) (
            h.format_and_mount device_path target (fs_type_of access_type)
              (mount_options_of access_type))
        else pure tt

  -- A volume that was made of a snapshot or another volume is resized where that is needed.
  unfoldable pub resize_copy : Volume → String → String → M State (Unit {0})
  resize_copy vol device_path target =
      if not (vol.source_vol_id == "") || not (vol.snapshot_id == "")
      then (do
        need_resize ← map_error (wrapping unknown) (h.need_resize device_path target)
        if need_resize
            then (do map_error (wrapping unknown) (h.resize device_path target); pure tt)
            else pure tt)
      else pure tt

  -- NodeStageVolume
  unfoldable pub node_stage_volume : NodeStageRequest → M State (Unit {0})
  node_stage_volume req = do
    (vol, capability) ← stage_validation req.volume_id req.staging_target_path req.volume_capability
    device_path ← map_error (unless_panic (wrapping internal)) (node_device_path req.volume_id)
    if is_block capability.access_type then pure tt else (do
      mount_formatted device_path req.staging_target_path capability.access_type
      resize_copy vol device_path req.staging_target_path)

  -- unstagetValidation
  unfoldable pub unstage_validation : String → String → M State (Unit {0})
  unstage_validation volume_id target =
      if volume_id == ""
      then fail (refuse invalid_argument)
      else if target == ""
      then fail (refuse invalid_argument)
      else (do get_volume C d.cloud_credentials volume_id; pure tt)

  -- NodeUnstageVolume
  unfoldable pub node_unstage_volume : String → String → M State (Unit {0})
  unfolding unstage_validation
  node_unstage_volume volume_id target = do
    unstage_validation volume_id target
    map_error (wrapping internal) (m.unmount_path target)

  -- NodeGetVolumeStats
  unfoldable pub node_get_volume_stats : String → String → M State (List VolumeUsage)
  node_get_volume_stats volume_id volume_path = do
    stats_validation h volume_id volume_path
    stats ← map_error (wrapping unknown) (m.get_device_stats volume_path)
    pure (usage_of stats)

  -- NodeExpandVolume
  unfoldable pub node_expand_volume : String → String → M State (Unit {0})
  node_expand_volume volume_id volume_path = do
    unstage_validation volume_id volume_path
    output ← map_error (wrapping unknown) (m.get_mount_fs volume_path)
    if trim_space output == ""
        then fail (wrapping unknown (plain output))
        else (do map_error (wrapping unknown) (h.resize (trim_space output) volume_path); pure tt)

  -- NodeGetCapabilities
  unfoldable pub node_get_capabilities : M State (List NodeCapability)
  node_get_capabilities = pure d.nscap

-- NodeGetInfo, of a driver with this topology key and limit of volumes
unfoldable pub node_info : {S : Type 0} → IMetadata S → String → ℕ → M S NodeInfo
node_info md key max_volumes = do
  node_id ← map_error (wrapping internal) md.get_instance_id
  zone ← map_error (wrapping internal) md.get_availability_zone
  pure (record {
    node_id = node_id;
    accessible_topology = some (record { segments = (key, zone) ∷ [] });
    max_volumes_per_node = max_volumes;
  })

-- maxVolumes
abbrev pub max_volumes : ℕ
max_volumes = 24

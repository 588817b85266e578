-- ===== src/Evs/Node/Inline.antt =====
-- What NodePublishVolume of pkg/evs/nodeserver.go did when it published an ephemeral volume.
use huaweicloud_csi_driver.Prelude.{
  ◌≡◌, ◌⊎◌, ◌<>◌, String, Option, none, some, true, false, ℤ, pos, ◌≢◌,
}
use huaweicloud_csi_driver.Utils.Decimal.{atoi}
use huaweicloud_csi_driver.Prelude.Dict.{get, lookup}
use huaweicloud_csi_driver.Status.{ok}
use huaweicloud_csi_driver.Csi.{AccessType, VolumeCapability}
use huaweicloud_csi_driver.Csi.Node.{NodePublishRequest}
use huaweicloud_csi_driver.Evs.Sdk.{Cloud, Volume, CreateOpts}
use huaweicloud_csi_driver.Evs.Driver.{EvsDriver}
use huaweicloud_csi_driver.Evs.Services.Volumes.{get_volume, create_volume_completed}
use huaweicloud_csi_driver.Evs.Services.Computes.{attach_volume_completed}
use huaweicloud_csi_driver.Node.Host.{Host}
use huaweicloud_csi_driver.Node.Mounts.{IMount}
use huaweicloud_csi_driver.Node.Metadatas.{IMetadata}
use huaweicloud_csi_driver.Evs.Node.{fs_type_of, mount_options_of, node_device_path}

-- The size in GiB of a capacity: the number before "Gi", or ten for a capacity that does not end in "Gi", and
-- for none.
abbrev pub SizeAsked : Option String → ℤ → Type 0
SizeAsked none size = size ≡ pos 10
SizeAsked (some capacity) size =
    ((digits : String) × (capacity ≡ digits <> "Gi") × (atoi digits ≡ some size))
    ⊎ (((digits : String) → capacity ≢ digits <> "Gi") × (size ≡ pos 10))

module _ (C : Cloud) (h : Host C.State) (m : IMount C.State) (md : IMetadata C.State)
    (d : EvsDriver) where
  -- Something was mounted at the target, by the last call's answer; or the device was formatted and mounted there
  -- by the last call.
  abbrev pub MountedAt : String → String → AccessType → C.State → C.State → Type 0
  MountedAt device target access_type s s' =
      (m.is_likely_not_mount_point_attach target s ≡ (ok false, s'))
      ⊎ ((s₁ : C.State) × (m.is_likely_not_mount_point_attach target s ≡ (ok true, s₁))
          × (h.format_and_mount device target (fs_type_of access_type)
                (mount_options_of access_type) s₁
              ≡ (ok tt, s')))

  -- A volume was attached to the instance of the metadata, and its device was found and mounted.
  abbrev pub AttachedAt : String → String → AccessType → C.State → C.State → Type 0
  AttachedAt volume_id target access_type s s' =
      (instance_id : String) × (device : String) × (s₁ : C.State) × (s₂ : C.State) × (s₃ : C.State)
      × (md.get_instance_id s ≡ (ok instance_id, s₁))
      × (attach_volume_completed C d.cloud_credentials instance_id volume_id s₁ ≡ (ok tt, s₂))
      × (node_device_path C h m d volume_id s₂ ≡ (ok device, s₃))
      × MountedAt device target access_type s₃ s'

  -- A volume was created in the zone of the metadata, with the name, the size and the type of the request, and
  -- mounted at its target.
  abbrev pub CreatedAt : NodePublishRequest → AccessType → C.State → C.State → Type 0
  CreatedAt req access_type s s' =
      (zone : String) × (size : ℤ) × (opts : CreateOpts) × (volume_id : String) × (s₁ : C.State)
      × (s₂ : C.State) × (md.get_availability_zone s ≡ (ok zone, s₁))
      × SizeAsked (lookup "capacity" req.volume_context) size
      × (opts.volume.name ≡ "ephemeral-" <> req.volume_id)
      × (opts.volume.size ≡ size)
      × (opts.volume.volume_type ≡ get req.volume_context "type")
      × (opts.volume.availability_zone ≡ zone)
      × (create_volume_completed C d.cloud_credentials opts s₁ ≡ (ok volume_id, s₂))
      × AttachedAt volume_id req.target_path access_type s₂ s'

  -- The cloud reported a volume with the id of the request, and then another one was created for it.
  abbrev pub InlinePublished : NodePublishRequest → C.State → C.State → Type 0
  InlinePublished req s s' =
      (capability : VolumeCapability) × (found : Volume) × (s₁ : C.State) × (req.volume_capability
        ≡ some capability)
      × (get_volume C d.cloud_credentials req.volume_id s ≡ (ok found, s₁))
      × CreatedAt req capability.access_type s₁ s'

-- ===== src/Evs/Controller/Volumes/Safety.antt =====
-- Which requests the other calls on volumes can send. A property of the cloud is a predicate on its
-- states that the queries keep.
use huaweicloud_csi_driver.Prelude.{String, Option, none, some, List, [], ◌∷◌}
use huaweicloud_csi_driver.Effect.Keeps.{Keeps, keeps_rules}
use huaweicloud_csi_driver.Common.{IsTimer}
use huaweicloud_csi_driver.Config.{ServiceClient}
use huaweicloud_csi_driver.Evs.Sdk.{Cloud}
use huaweicloud_csi_driver.Evs.Driver.{EvsDriver}
use huaweicloud_csi_driver.Utils.{round_up_size, gb_byte_size}
use huaweicloud_csi_driver.Csi.{
  AccessMode, VolumeCapability, CapacityRange, ListRequest, ExpandRequest,
}
use huaweicloud_csi_driver.Evs.Services.Effects.{
  QueriesKeep, get_volume-Keeps, list_volumes-Keeps, expand_volume-Keeps, delete_volume-Keeps,
}
use huaweicloud_csi_driver.Evs.Controller.Volumes.{
  remove_volume, controller_get_volume, list_page, expand_to, expand_in, controller_expand_volume,
  confirm, validate_volume_capabilities,
}

confirm-Keeps :
    {S : Type 0} {P : S → Type 0} (modes : List AccessMode) (capabilities : List VolumeCapability)
    → Keeps P (confirm modes capabilities)
unfolding confirm
confirm-Keeps [] capabilities = search keeps_rules
confirm-Keeps (mode ∷ modes) capabilities = search keeps_rules

module _ (C : Cloud) (d : EvsDriver) (lawful : IsTimer C.timer) {P : C.State → Type 0}
    (queries : QueriesKeep C P) where
  -- DeleteVolume changes nothing but by the request that deletes the volume that it is given.
  pub remove_volume-Keeps :
      (volume_id : String)
      → ((client : ServiceClient) → Keeps P (C.volumes_delete client volume_id))
      → Keeps P (remove_volume C d volume_id)
  unfolding remove_volume
  remove_volume-Keeps volume_id h =
      search (keeps_rules, delete_volume-Keeps C d.cloud_credentials lawful queries, h)

  expand_to-Keeps :
      (volume_id : String) (range : CapacityRange)
      → ((client : ServiceClient)
          → Keeps P
              (C.volumes_extend client volume_id (round_up_size range.required_bytes gb_byte_size)))
      → Keeps P (expand_to C d volume_id range)
  unfolding expand_to
  expand_to-Keeps volume_id range h =
      search
        (
          keeps_rules,
          get_volume-Keeps C d.cloud_credentials lawful queries,
          expand_volume-Keeps C d.cloud_credentials lawful queries,
          h,
        )
        depth 8

  -- What the request that extends the volume to the size asked for keeps.
  abbrev pub ExpansionKeeps : String → Option CapacityRange → Type 0
  ExpansionKeeps volume_id none = Unit
  ExpansionKeeps volume_id (some range) =
      (client : ServiceClient)
      → Keeps P
          (C.volumes_extend client volume_id (round_up_size range.required_bytes gb_byte_size))

  expand_in-Keeps :
      (volume_id : String) (range : Option CapacityRange)
      → ExpansionKeeps volume_id range
      → Keeps P (expand_in C d volume_id range)
  unfolding expand_in
  expand_in-Keeps volume_id none h = search keeps_rules
  expand_in-Keeps volume_id (some range) h = expand_to-Keeps volume_id range h

  -- ControllerExpandVolume changes nothing but by the request that extends the volume that it is given
  -- to the required bytes, rounded up to gigabytes.
  pub controller_expand_volume-Keeps :
      (req : ExpandRequest)
      → ExpansionKeeps req.volume_id req.capacity_range
      → Keeps P (controller_expand_volume C d req)
  unfolding controller_expand_volume
  controller_expand_volume-Keeps req h = search (keeps_rules, expand_in-Keeps, h)

  -- ControllerGetVolume, ListVolumes and ValidateVolumeCapabilities send queries alone: what those
  -- keep, the three calls keep.
  pub queries-Keeps :
      (volume_id : String) (page : ListRequest) (capabilities : List VolumeCapability)
      → Keeps P (controller_get_volume C d volume_id)
        × Keeps P (list_page C d page)
        × Keeps P (validate_volume_capabilities C d volume_id capabilities)
  unfolding controller_get_volume list_page validate_volume_capabilities
  queries-Keeps volume_id page [] = (
    search (keeps_rules, get_volume-Keeps C d.cloud_credentials lawful queries),
    search (keeps_rules, list_volumes-Keeps C d.cloud_credentials lawful queries),
    search keeps_rules,
  )
  queries-Keeps volume_id page (capability ∷ rest) = (
    search (keeps_rules, get_volume-Keeps C d.cloud_credentials lawful queries),
    search (keeps_rules, list_volumes-Keeps C d.cloud_credentials lawful queries),
    search (keeps_rules, get_volume-Keeps C d.cloud_credentials lawful queries, confirm-Keeps),
  )

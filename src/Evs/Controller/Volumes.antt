-- ===== src/Evs/Controller/Volumes.antt =====
-- DeleteVolume, ControllerGetVolume, ListVolumes, ControllerExpandVolume and
-- ValidateVolumeCapabilities of pkg/evs/controllerserver.go.
pub mod Safety
pub mod Expansion
pub mod Listing
use huaweicloud_csi_driver.Prelude.{
  ℕ, String, ◌==◌, Bool, true, false, ◌&&◌, not, Option, none, some, List, [], ◌∷◌, ◌++◌, map,
  length, replicate, last?, if◌then◌else◌, ℤ, pos, ltb_ℤ, leb_ℤ, eqb_ℤ,
}
use huaweicloud_csi_driver.Status.{
  Error, wrapping, refuse, panic, is_not_found, internal, invalid_argument, out_of_range,
  unimplemented,
}
use huaweicloud_csi_driver.Effect.{M, pure, fail, attempt, ◌>>=◌, ◌>>◌, map_error}
use huaweicloud_csi_driver.Utils.{round_up_size, gb_byte_size, gb_to_bytes}
use huaweicloud_csi_driver.Csi
use huaweicloud_csi_driver.Csi.{
  AccessMode, same_mode, get_mode, access_unset, VolumeCapability, CapacityRange,
  ControllerGetVolumeResponse, ListRequest, ListVolumesEntry, ListVolumesResponse, ExpandRequest,
  ExpandResponse, ValidateResponse,
}
use huaweicloud_csi_driver.Evs.Sdk.{Cloud, Attachment, Volume}
use huaweicloud_csi_driver.Evs.Driver.{EvsDriver, ControllerCapability}
use huaweicloud_csi_driver.Evs.Services.Volumes.{
  get_volume, list_volumes, expand_volume, delete_volume,
}

abbrev server_ids : List Attachment → List String
server_ids = map (λ attachment. attachment.server_id)

-- A csi.Volume with an id and a capacity.
unfoldable pub plain_volume : String → ℤ → Csi.Volume
unfolding gb_to_bytes
plain_volume id size = record {
  volume_id = id;
  capacity_bytes = gb_to_bytes size;
  accessible_topology = [];
  volume_context = [];
  content_source = none;
}

-- An entry of ListVolumes. The slice is made with the length of the attachments and then appended
-- to, so as many empty texts stand in front of the ids.
unfoldable pub volume_entry : Volume → ListVolumesEntry
unfolding plain_volume
volume_entry vol = record {
  volume = plain_volume vol.id vol.size;
  published_node_ids = replicate (length vol.attachments) "" ++ server_ids vol.attachments;
}

abbrev last_id : Option Volume → String
last_id none = ""
last_id (some vol) = vol.id

-- The token of the next page: the last id of a full page.
unfoldable pub next_marker : List Volume → ℤ → String
next_marker volumes limit =
    if ltb_ℤ (pos 0) (pos (length volumes)) && eqb_ℤ (pos (length volumes)) limit
    then last_id (last? volumes)
    else ""

-- The loop of ValidateVolumeCapabilities: whether all have the driver's mode.
unfoldable pub all_in_mode : AccessMode → List VolumeCapability → Bool
all_in_mode mode [] = true
all_in_mode mode (capability ∷ rest) =
    if same_mode (get_mode capability) mode then all_in_mode mode rest else false

-- `vcap[0]` is read once a capability is compared, and for the response.
unfoldable pub confirm :
    {S : Type 0} → List AccessMode → List VolumeCapability → M S ValidateResponse
unfolding all_in_mode
confirm [] capabilities = fail panic
confirm (mode ∷ _) capabilities = pure (
    if all_in_mode mode capabilities
    then record {
      confirmed = some (record { access_mode = some mode; access_type = access_unset } ∷ []);
      message = "";
    }
    else record { confirmed = none; message = "Requested volume capability not supported" })

module _ (C : Cloud) where
  open C use {State}

  abbrev pub deletion_error : Error → M State (Unit {0})
  deletion_error e = if is_not_found e then pure tt else fail (wrapping internal e)

  -- DeleteVolume of the controller: a volume that is missing is deleted.
  unfoldable pub remove_volume : EvsDriver → String → M State (Unit {0})
  unfolding is_not_found
  remove_volume d volume_id =
      if volume_id == ""
      then fail (refuse invalid_argument)
      else attempt (delete_volume C d.cloud_credentials volume_id) deletion_error pure

  unfoldable pub controller_get_volume : EvsDriver → String → M State ControllerGetVolumeResponse
  unfolding plain_volume
  controller_get_volume d volume_id =
      if volume_id == "" then fail (refuse invalid_argument) else (do
        volume ← get_volume C d.cloud_credentials volume_id
        pure (record {
          volume = plain_volume volume_id volume.size;
          published_node_ids = server_ids volume.attachments;
        }))

  -- ListVolumes of the controller.
  unfoldable pub list_page : EvsDriver → ListRequest → M State ListVolumesResponse
  unfolding volume_entry next_marker
  list_page d req = if ltb_ℤ req.max_entries (pos 0) then fail (refuse invalid_argument) else (do
    volumes ← map_error (wrapping internal) (
        list_volumes C d.cloud_credentials
          (record { name = ""; marker = req.starting_token; limit = req.max_entries }))
    pure (record {
      entries = map volume_entry volumes;
      next_token = next_marker volumes req.max_entries;
    }))

  abbrev over_limit : CapacityRange → Bool
  over_limit range = ltb_ℤ (pos 0) range.limit_bytes && ltb_ℤ range.limit_bytes range.required_bytes

  -- ControllerExpandVolume with a range.
  unfoldable pub expand_to : EvsDriver → String → CapacityRange → M State ExpandResponse
  unfolding gb_to_bytes
  expand_to d volume_id range =
      let cc = d.cloud_credentials in
      let size_gb = round_up_size range.required_bytes gb_byte_size in
      if over_limit range then fail (refuse out_of_range) else (do
        volume ← get_volume C cc volume_id
        if leb_ℤ size_gb volume.size
            then pure (record {
              capacity_bytes = gb_to_bytes volume.size;
              node_expansion_required = true;
            })
            else (do
              map_error (wrapping internal) (expand_volume C cc volume_id size_gb)
              pure (record {
                capacity_bytes = range.required_bytes;
                node_expansion_required = true;
              })))

  unfoldable pub expand_in : EvsDriver → String → Option CapacityRange → M State ExpandResponse
  expand_in d volume_id none = fail (refuse invalid_argument)
  expand_in d volume_id (some range) = expand_to d volume_id range

  unfoldable pub controller_expand_volume : EvsDriver → ExpandRequest → M State ExpandResponse
  controller_expand_volume d req =
      if req.volume_id == ""
      then fail (refuse invalid_argument)
      else expand_in d req.volume_id req.capacity_range

  unfoldable pub validate_volume_capabilities :
      EvsDriver → String → List VolumeCapability → M State ValidateResponse
  unfolding confirm
  validate_volume_capabilities d volume_id [] = fail (refuse invalid_argument)
  validate_volume_capabilities d volume_id (capability ∷ rest) =
      if volume_id == ""
      then fail (refuse invalid_argument)
      else (do get_volume C d.cloud_credentials volume_id; confirm d.vcap (capability ∷ rest))

  -- ControllerGetCapabilities
  unfoldable pub controller_get_capabilities : EvsDriver → M State (List ControllerCapability)
  controller_get_capabilities d = pure d.cscap

  unfoldable pub get_capacity : M State ℤ
  get_capacity = fail (refuse unimplemented)

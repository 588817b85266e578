-- ===== src/Obs/Controller.antt =====
-- The controller service of the OBS driver (pkg/obs/controllerserver.go).
pub mod Outcome
pub mod Creation
pub mod Paging
pub mod Validation
use huaweicloud_csi_driver.Prelude.{
  ℕ, String, ◌==◌, Bool, true, false, not, ◌&&◌, Option, none, some, List, [], ◌∷◌, map, last?,
  length, if◌then◌else◌, ℤ, pos, ltb_ℤ, leb_ℤ, eqb_ℤ,
}
use huaweicloud_csi_driver.Prelude.Dict.{get}
use huaweicloud_csi_driver.Status.{
  Error, wrapping, unless_panic, refuse, panic, code_of, is_not_found, is_not_found_code, internal,
  invalid_argument, out_of_range, unimplemented,
}
use huaweicloud_csi_driver.Effect.{M, pure, fail, attempt, ◌>>=◌, ◌>>◌, map_error}
use huaweicloud_csi_driver.Csi
use huaweicloud_csi_driver.Csi.{
  AccessMode, same_mode, get_mode, access_unset, VolumeCapability, CapacityRange,
  CreateVolumeRequest, ListRequest, ListVolumesEntry, ListVolumesResponse, ExpandRequest,
  ExpandResponse, ControllerGetVolumeResponse, ValidateResponse,
}
use huaweicloud_csi_driver.Evs.Driver.{ControllerCapability}
use huaweicloud_csi_driver.Obs.Sdk.{ObsCloud}
use huaweicloud_csi_driver.Obs.Driver.{ObsDriver}
use huaweicloud_csi_driver.Obs.Services.Buckets.{
  Bucket, get_parallel_fs_bucket, create_bucket, delete_bucket, list_buckets, set_bucket_capacity,
}
use huaweicloud_csi_driver.Obs.Services.Objects.{clean_bucket}

-- createVolumeValidation
unfoldable pub obs_create_validation :
    {S : Type 0} → String → List VolumeCapability → M S (Unit {0})
obs_create_validation name [] = fail (refuse invalid_argument)
obs_create_validation name (c ∷ rest) =
    if name == "" then fail (refuse invalid_argument) else pure tt

-- The volume of a bucket's name and capacity.
abbrev pub bucket_volume : String → ℤ → Csi.Volume
bucket_volume name capacity = record {
  volume_id = name;
  capacity_bytes = capacity;
  accessible_topology = [];
  volume_context = [];
  content_source = none;
}

-- buildCreateVolumeResponse
abbrev pub build_obs_response : Bucket → Csi.Volume
build_obs_response bucket = bucket_volume bucket.bucket_name bucket.capacity

-- The entry of ListVolumes for a bucket.
abbrev pub bucket_entry : Bucket → ListVolumesEntry
bucket_entry bucket = record {
  volume = bucket_volume bucket.bucket_name bucket.capacity;
  published_node_ids = [];
}

abbrev name_or_empty : Option Bucket → String
name_or_empty none = ""
name_or_empty (some bucket) = bucket.bucket_name

-- The token behind a page: the name of its last bucket, where the page is full.
unfoldable pub obs_next_token : List Bucket → ℤ → String
obs_next_token volumes limit =
    if eqb_ℤ (pos (length volumes)) limit then name_or_empty (last? volumes) else ""

-- The loop of ValidateVolumeCapabilities.
unfoldable pub every_mode : AccessMode → List VolumeCapability → Bool
every_mode mode [] = true
every_mode mode (capability ∷ rest) =
    if same_mode (get_mode capability) mode then every_mode mode rest else false

-- Its answer, for the driver's modes: vcap[0] panics where there are none.
unfoldable pub validated :
    {S : Type 0} → List AccessMode → List VolumeCapability → M S ValidateResponse
unfolding every_mode
validated [] capabilities = fail panic
validated (mode ∷ modes) capabilities = pure (
    if every_mode mode capabilities
    then record {
      confirmed = some (record { access_mode = some mode; access_type = access_unset } ∷ []);
      message = "";
    }
    else record { confirmed = none; message = "Requested volume capability not supported" })

module _ (C : ObsCloud) where
  open C use {State}

  -- CreateVolume behind the request that created the bucket.
  unfoldable pub set_requested : ObsDriver → String → Option CapacityRange → M State (Unit {0})
  set_requested d name none = pure tt
  set_requested d name (some range) = set_bucket_capacity C d.cloud name range.required_bytes

  -- CreateVolume where no bucket has the name.
  unfoldable pub create_new_bucket : ObsDriver → CreateVolumeRequest → M State Csi.Volume
  unfolding set_requested
  create_new_bucket d req = do
    create_bucket C d.cloud req.name (get req.parameters "acl")
    set_requested d req.name req.capacity_range
    volume ← get_parallel_fs_bucket C d.cloud req.name
    pure (build_obs_response volume)

  -- CreateVolume
  unfoldable pub create_obs : ObsDriver → CreateVolumeRequest → M State Csi.Volume
  create_obs d req =
      obs_create_validation req.name req.volume_capabilities
      >> attempt (get_parallel_fs_bucket C d.cloud req.name)
          (λ e. if is_not_found_code (code_of e) then create_new_bucket d req else fail e)
          (λ volume. pure (build_obs_response volume))

  -- DeleteVolume behind the query, with the rounds of its loop over the objects.
  unfoldable pub delete_present_bucket : ObsDriver → ℕ → String → M State (Unit {0})
  delete_present_bucket d rounds name =
      clean_bucket C d.cloud rounds name
      >> attempt (delete_bucket C d.cloud name)
          (λ e. if is_not_found_code (code_of e) then pure tt else fail (wrapping internal e)) pure

  -- DeleteVolume
  unfoldable pub delete_obs : ObsDriver → ℕ → String → M State (Unit {0})
  delete_obs d rounds name =
      if name == ""
      then fail (refuse invalid_argument)
      else attempt (get_parallel_fs_bucket C d.cloud name)
          (λ e. if is_not_found e then pure tt else fail e)
          (λ volume. delete_present_bucket d rounds name)

  -- ControllerGetVolume
  unfoldable pub get_obs : ObsDriver → String → M State ControllerGetVolumeResponse
  get_obs d volume_id = if volume_id == "" then fail (refuse invalid_argument) else (do
    bucket ← get_parallel_fs_bucket C d.cloud volume_id
    pure (record { volume = bucket_volume volume_id bucket.capacity; published_node_ids = [] }))

  -- ListVolumes
  unfoldable pub list_obs : ObsDriver → ListRequest → M State ListVolumesResponse
  list_obs d req = if ltb_ℤ req.max_entries (pos 0) then fail (refuse invalid_argument) else (do
    volumes ←
        map_error (unless_panic (wrapping internal))
          (list_buckets C d.cloud (record { marker = req.starting_token; limit = req.max_entries }))
    pure (record {
      entries = map bucket_entry volumes;
      next_token = obs_next_token volumes req.max_entries;
    }))

  -- ValidateVolumeCapabilities
  unfoldable pub validate_obs :
      ObsDriver → String → List VolumeCapability → M State ValidateResponse
  validate_obs d volume_id [] = fail (refuse invalid_argument)
  validate_obs d volume_id (c ∷ rest) =
      if volume_id == ""
      then fail (refuse invalid_argument)
      else (do get_parallel_fs_bucket C d.cloud volume_id; validated d.vcap (c ∷ rest))

  -- ControllerExpandVolume behind its validation of the request.
  unfoldable pub expand_bucket : ObsDriver → String → CapacityRange → M State ExpandResponse
  expand_bucket d volume_id range =
      let size_bytes = range.required_bytes in
      if ltb_ℤ (pos 0) range.limit_bytes && ltb_ℤ range.limit_bytes size_bytes
      then fail (refuse out_of_range)
      else (do
        volume ← get_parallel_fs_bucket C d.cloud volume_id
        if leb_ℤ size_bytes volume.capacity
            then pure (record { capacity_bytes = volume.capacity; node_expansion_required = false })
            else (do
              map_error (wrapping internal) (set_bucket_capacity C d.cloud volume_id size_bytes)
              pure (record { capacity_bytes = size_bytes; node_expansion_required = false })))

  unfoldable pub expand_range : ObsDriver → String → Option CapacityRange → M State ExpandResponse
  expand_range d volume_id none = fail (refuse invalid_argument)
  expand_range d volume_id (some range) = expand_bucket d volume_id range

  -- ControllerExpandVolume
  unfoldable pub expand_obs : ObsDriver → ExpandRequest → M State ExpandResponse
  unfolding expand_range
  expand_obs d req =
      if req.volume_id == ""
      then fail (refuse invalid_argument)
      else expand_range d req.volume_id req.capacity_range

  -- ControllerPublishVolume, ControllerUnpublishVolume, CreateSnapshot, DeleteSnapshot, ListSnapshots,
  -- GetCapacity
  unfoldable pub obs_unsupported : {A : Type 0} → M State A
  obs_unsupported = fail (refuse unimplemented)

  -- ControllerGetCapabilities
  unfoldable pub obs_capabilities : ObsDriver → M State (List ControllerCapability)
  obs_capabilities d = pure d.cscap

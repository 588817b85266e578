-- ===== src/Obs/Tests/Calls.antt =====
-- Tests of the calls of the OBS controller and of their theorems.
use huaweicloud_csi_driver.Prelude.{◌≡◌, refl, false, ◌⊎◌, none, some, [], ◌∷◌, pos}
use huaweicloud_csi_driver.Status.{ok}
use huaweicloud_csi_driver.Effect.{attempt}
use huaweicloud_csi_driver.Csi
use huaweicloud_csi_driver.Csi.{
  VolumeCapability, mode_unknown, access_unset, CapacityRange, CreateVolumeRequest, ExpandRequest,
  ExpandResponse, ValidateResponse, multi_node_multi_writer,
}
use huaweicloud_csi_driver.Obs.Driver.{new_obs_driver}
use huaweicloud_csi_driver.Obs.Services.Client.{get_obs_client, bucket_error}
use huaweicloud_csi_driver.Obs.Services.Buckets.{
  get_bucket_metadata, get_bucket_capacity, get_parallel_fs_bucket, create_bucket, delete_bucket,
  set_bucket_capacity,
}
use huaweicloud_csi_driver.Obs.Services.Objects.{
  list_objects, delete_listed, delete_rounds, delete_objects, list_multipart_uploads, abort_all,
  abort_multipart_upload, clean_bucket,
}
use huaweicloud_csi_driver.Obs.Controller.{
  obs_create_validation, create_new_bucket, create_obs, delete_present_bucket, delete_obs,
  expand_bucket, expand_obs, validated, validate_obs,
}
use huaweicloud_csi_driver.Obs.Controller.Outcome.{WasMissing, WasDeleted, delete_obs-Deleted}
use huaweicloud_csi_driver.Obs.Controller.Creation.{
  Reported, Found, Requested, create_obs-Reported, Backed, expand_obs-Backed,
}
use huaweicloud_csi_driver.Obs.Controller.Validation.{NamesNoMode, validate_obs-NamesNoMode}
use huaweicloud_csi_driver.Obs.Tests.{
  World, small_cloud, credentials, driver, request, start, after,
}

abbrev answer : Csi.Volume
answer = record {
  volume_id = "media";
  capacity_bytes = pos 5000;
  accessible_topology = [];
  volume_context = [];
  content_source = none;
}

created : create_obs small_cloud driver request start ≡ (ok answer, after)
unfolding create_obs obs_create_validation get_parallel_fs_bucket get_bucket_metadata
    get_bucket_capacity get_obs_client bucket_error create_new_bucket create_bucket
    set_bucket_capacity attempt
created = refl

create_obs-Reported_example :
    (answer.volume_id ≡ "media")
    × Reported small_cloud driver "media" (pos 5000) after
    × (Found small_cloud driver "media" ⊎ Requested small_cloud driver request)
create_obs-Reported_example =
    create_obs-Reported small_cloud driver request answer start after created

abbrev expand_request : ExpandRequest
expand_request = record {
  volume_id = "media";
  capacity_range = some (record { required_bytes = pos 7000; limit_bytes = pos 0 });
}

abbrev grown : World
grown = record {
  buckets = ("media", pos 7000) ∷ [];
  objects = "a" ∷ "b" ∷ "c" ∷ [];
  requests = "quota" ∷ "quota" ∷ "create" ∷ [];
}

abbrev expanded_to : ExpandResponse
expanded_to = record { capacity_bytes = pos 7000; node_expansion_required = false }

expanded : expand_obs small_cloud driver expand_request after ≡ (ok expanded_to, grown)
unfolding expand_obs expand_bucket get_parallel_fs_bucket get_bucket_metadata get_bucket_capacity
    get_obs_client set_bucket_capacity attempt
expanded = refl

expand_obs-Backed_example :
    (range : CapacityRange) × (expand_request.capacity_range ≡ some range)
    × Backed small_cloud driver "media" range expanded_to grown
expand_obs-Backed_example =
    expand_obs-Backed small_cloud driver expand_request expanded_to after grown expanded

abbrev gone : World
gone = record { buckets = []; objects = []; requests = "delete" ∷ "quota" ∷ "create" ∷ [] }

-- Three objects take one round and a last one.
removed : delete_obs small_cloud driver 2 "media" after ≡ (ok tt, gone)
unfolding delete_obs delete_present_bucket clean_bucket abort_multipart_upload
    list_multipart_uploads abort_all delete_objects delete_rounds list_objects delete_listed
    get_parallel_fs_bucket get_bucket_metadata get_bucket_capacity get_obs_client delete_bucket
    attempt
removed = refl

delete_obs-Deleted_example :
    WasMissing small_cloud driver "media" after gone ⊎ WasDeleted small_cloud driver "media" gone
delete_obs-Deleted_example = delete_obs-Deleted small_cloud driver 2 "media" after gone removed

abbrev confirmation : ValidateResponse
confirmation = record {
  confirmed = some (record { access_mode = some mode_unknown; access_type = access_unset } ∷ []);
  message = "";
}

confirmed :
    validate_obs small_cloud
      (new_obs_driver "unix:///csi/csi.sock" credentials)
      "media"
      request.volume_capabilities
      after
    ≡ (ok confirmation, after)
unfolding validate_obs new_obs_driver validated get_parallel_fs_bucket get_bucket_metadata
    get_bucket_capacity get_obs_client attempt
confirmed = refl

validate_obs-NamesNoMode_example : NamesNoMode request.volume_capabilities
validate_obs-NamesNoMode_example =
    validate_obs-NamesNoMode small_cloud "unix:///csi/csi.sock" credentials "media"
      request.volume_capabilities
      (record { access_mode = some mode_unknown; access_type = access_unset } ∷ []) confirmation
      after after confirmed refl

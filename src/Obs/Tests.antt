-- ===== src/Obs/Tests.antt =====
-- A small cloud in memory with the objects of one bucket and a log of the requests that change something, for
-- the tests of the OBS driver in the children.
mod Calls
mod Listing
mod Nodes
use huaweicloud_csi_driver.Prelude.{
  ℕ, zero, suc, ◌≡◌, refl, String, false, ◌⊎◌, Option, none, some, List, [], ◌∷◌, length, take,
  drop, map, ℤ, pos, pos_part, arith,
}
use huaweicloud_csi_driver.Prelude.Dict.{Dict, lookup, insert}
use huaweicloud_csi_driver.Status.{Result, ok, err, obs_error, panic}
use huaweicloud_csi_driver.Effect.{attempt}
use huaweicloud_csi_driver.Config.{CloudCredentials}
use huaweicloud_csi_driver.Csi
use huaweicloud_csi_driver.Csi.{
  VolumeCapability, mode_unknown, access_unset, CapacityRange, CreateVolumeRequest, ExpandRequest,
  ExpandResponse, ValidateResponse, multi_node_multi_writer,
}
use huaweicloud_csi_driver.Obs.Sdk.{ObsCloud, BucketMetadata}
use huaweicloud_csi_driver.Obs.Driver.{ObsDriver, new_obs_driver}
use huaweicloud_csi_driver.Obs.Services.Client.{get_obs_client, bucket_error}
use huaweicloud_csi_driver.Obs.Services.Buckets.{
  get_bucket_metadata, get_bucket_capacity, get_parallel_fs_bucket, create_bucket, delete_bucket,
  set_bucket_capacity, page_start, bucket_count, page_names, get_all, list_buckets,
}
use huaweicloud_csi_driver.Obs.Services.Objects.{
  list_objects, delete_listed, delete_rounds, delete_objects, list_multipart_uploads, abort_all,
  abort_multipart_upload, clean_bucket,
}
use huaweicloud_csi_driver.Obs.Services.Deletion.{
  Connects, ServesObjects, Emptied, delete_objects-Emptied,
}
use huaweicloud_csi_driver.Obs.Controller.{
  obs_create_validation, create_new_bucket, create_obs, delete_present_bucket, delete_obs,
  expand_bucket, expand_obs, validated, validate_obs, bucket_entry, list_obs, obs_next_token,
}
use huaweicloud_csi_driver.Obs.Controller.Outcome.{WasMissing, WasDeleted, delete_obs-Deleted}
use huaweicloud_csi_driver.Obs.Controller.Creation.{
  Reported, Found, Requested, create_obs-Reported, Backed, expand_obs-Backed,
}
use huaweicloud_csi_driver.Obs.Controller.Paging.{
  ServesBuckets, follow, bucket_of, follow_buckets, list_obs-panics,
}
use huaweicloud_csi_driver.Obs.Controller.Validation.{NamesNoMode, validate_obs-NamesNoMode}

-- The buckets with their capacities, and the objects in any of them.
pub record World : Type 0 where
  pub buckets : Dict ℤ
  pub objects : List String
  pub requests : List String

abbrev pub enabled : BucketMetadata
enabled = record {
  location = "cn-north-4";
  az_redundancy = "3az";
  epid = "0";
  fs_status = "Enabled";
}

abbrev pub found : {A : Type 0} → A → Option ℤ → Result A
found a none = err (obs_error 404 "NoSuchBucket" "no such bucket")
found a (some quota) = ok a

abbrev pub quota_of : Option ℤ → Result ℤ
quota_of none = err (obs_error 404 "NoSuchBucket" "no such bucket")
quota_of (some quota) = ok quota

-- A cloud with a way to look a bucket up.
abbrev pub cloud_with : (String → World → Option ℤ) → ObsCloud
cloud_with find = record {
  State = World;
  obs_new = λ endpoint w. (ok (record { endpoint = endpoint }), w);
  init_log = λ w. (ok tt, w);
  get_bucket_metadata = λ client name w. (found enabled (find name w), w);
  create_bucket = λ client input w. (
    ok tt,
    record w { buckets = insert input.bucket (pos 0) w.buckets; requests = "create" ∷ w.requests },
  );
  delete_bucket =
      λ client name w. (ok tt, record w { buckets = []; requests = "delete" ∷ w.requests });
  list_buckets = λ client input w. (ok ("media" ∷ "photos" ∷ "videos" ∷ []), w);
  set_bucket_tagging = λ client name tags w. (ok tt, w);
  get_bucket_tagging = λ client name w. (ok [], w);
  get_bucket_storage_info =
      λ client name w. (ok (record { size = pos 0; object_number = pos (length w.objects) }), w);
  get_bucket_quota = λ client name w. (quota_of (find name w), w);
  set_bucket_quota = λ client name quota w.
      (ok tt, record w { buckets = insert name quota w.buckets; requests = "quota" ∷ w.requests });
  list_objects = λ client name max_keys w. (ok (take (pos_part max_keys) w.objects), w);
  delete_objects = λ client name keys w. (
    ok (record { deleteds = keys; errors = [] }),
    record w { objects = drop (length keys) w.objects },
  );
  list_multipart_uploads = λ client name w. (ok [], w);
  abort_multipart_upload = λ client name upload w. (ok tt, w);
}

abbrev pub small_cloud : ObsCloud
small_cloud = cloud_with (λ name w. lookup name w.buckets)

-- Its buckets are always there.
abbrev pub fixed_cloud : ObsCloud
fixed_cloud = cloud_with (λ name w. some (pos 1000))

abbrev pub credentials : CloudCredentials
credentials = record {
  cloud = "myhuaweicloud.com";
  region = "cn-north-4";
  project_id = "0f1e";
  vpc_id = "";
  subnet_id = "";
  security_group_id = "";
}

abbrev pub driver : ObsDriver
driver = record {
  endpoint = "unix:///csi/csi.sock";
  cloud = credentials;
  vcap = mode_unknown ∷ [];
  cscap = [];
  nscap = [];
}

abbrev pub request : CreateVolumeRequest
request = record {
  name = "media";
  capacity_range = some (record { required_bytes = pos 5000; limit_bytes = pos 0 });
  volume_capabilities = record { access_mode = none; access_type = access_unset } ∷ [];
  parameters = ("acl", "private") ∷ [];
  volume_content_source = none;
  accessibility_requirements = none;
}

abbrev pub start : World
start = record { buckets = []; objects = "a" ∷ "b" ∷ "c" ∷ []; requests = [] }

abbrev pub after : World
after = record {
  buckets = ("media", pos 5000) ∷ [];
  objects = "a" ∷ "b" ∷ "c" ∷ [];
  requests = "quota" ∷ "create" ∷ [];
}

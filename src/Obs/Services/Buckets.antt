-- ===== src/Obs/Services/Buckets.antt =====
-- pkg/obs/services/buckets.go
use huaweicloud_csi_driver.Prelude.{
  ℕ, suc, String, ◌==◌, Bool, true, false, not, List, [], ◌∷◌, length, take, drop, if◌then◌else◌, ℤ,
  pos, sub_ℕ, ltb_ℤ, leb_ℤ, pos_part,
}
use huaweicloud_csi_driver.Status.{
  Error, Result, ok, err, obs_error, wrapping, refuse, panic, internal, not_found, already_exists,
  unavailable,
}
use huaweicloud_csi_driver.Effect.{M, pure, fail, attempt, ◌>>=◌, ◌>>◌, map_error}
use huaweicloud_csi_driver.Config.{CloudCredentials}
use huaweicloud_csi_driver.Obs.Sdk.{ObsCloud, BucketMetadata, Tag, StorageInfo}
use huaweicloud_csi_driver.Obs.Services.Client.{has_http_status, bucket_error, get_obs_client}

pub record Bucket : Type 0 where
  pub bucket_name : String
  pub region : String
  pub az_redundancy : String
  pub enterprise_project_id : String
  pub capacity : ℤ

pub record ListOpts : Type 0 where
  pub marker : String
  pub limit : ℤ

-- IsParallelFSBucket
abbrev pub is_parallel_fs_bucket : String → Bool
is_parallel_fs_bucket fs_status = fs_status == "Enabled"

-- The errors of CreateBucket and DeleteBucket.
unfoldable pub creation_error : Error → Error
creation_error e = if has_http_status 409 e then wrapping already_exists e else wrapping internal e

unfoldable pub deletion_error : Error → Error
deletion_error e =
    if has_http_status 404 e
    then wrapping not_found e
    else if has_http_status 409 e
    then wrapping unavailable e
    else wrapping internal e

-- What ListBucketTags returns on an error: a bucket without tags has none.
unfoldable pub without_tags : {S : Type 0} → Error → M S (List Tag)
unfolding bucket_error
without_tags (obs_error http_status code message) =
    if has_http_status 404 (obs_error http_status code message)
    then if code == "NoSuchTagSet"
      then pure []
      else fail (bucket_error (obs_error http_status code message))
    else fail (bucket_error (obs_error http_status code message))
without_tags e = fail (bucket_error e)

-- The loop of ListBuckets that looks for the marker: the number of names in front of it, which is
-- len(output.Buckets) where the marker is not there.
unfoldable pub marker_index : String → List String → ℕ
marker_index marker [] = 0
marker_index marker (name ∷ rest) =
    let behind = marker_index marker rest in if marker == name then 0 else suc behind

-- i + 1, where the page begins
unfoldable pub page_start : String → List String → ℕ
unfolding marker_index
page_start marker names = if marker == "" then 0 else suc (marker_index marker names)

-- bucketCount
unfoldable pub bucket_count : String → List String → ℤ → ℤ
unfolding page_start
bucket_count marker names limit =
    let left = sub_ℕ (length names) (page_start marker names) in
    if ltb_ℤ left limit then left else limit

-- The names of the page: the loop over k and j. It is reached with a limit that is not negative.
unfoldable pub page_names : String → List String → ℤ → List String
unfolding page_start
page_names marker names limit = take (pos_part limit) (drop (page_start marker names) names)

-- group.Wait(): the first error, and otherwise every bucket in its place.
abbrev pub joined : Result Bucket → Result (List Bucket) → Result (List Bucket)
joined (ok bucket) (ok rest) = ok (bucket ∷ rest)
joined (ok bucket) (err e) = err e
joined (err e) _ = err e

module _ (C : ObsCloud) (c : CloudCredentials) where
  open C use {State}

  unfoldable pub get_bucket_metadata : String → M State BucketMetadata
  get_bucket_metadata bucket_name = do
    client ← get_obs_client C c
    map_error bucket_error (C.get_bucket_metadata client bucket_name)

  unfoldable pub check_bucket_exist : String → M State Bool
  check_bucket_exist bucket_name = do get_bucket_metadata bucket_name; pure true

  unfoldable pub get_bucket_capacity : String → M State ℤ
  get_bucket_capacity bucket_name = do
    client ← get_obs_client C c
    map_error bucket_error (C.get_bucket_quota client bucket_name)

  unfoldable pub get_parallel_fs_bucket : String → M State Bucket
  get_parallel_fs_bucket bucket_name = do
    metadata ← get_bucket_metadata bucket_name
    if not (is_parallel_fs_bucket metadata.fs_status) then fail (refuse unavailable) else (do
      capacity ← get_bucket_capacity bucket_name
      pure (record {
        bucket_name = bucket_name;
        region = metadata.location;
        az_redundancy = metadata.az_redundancy;
        enterprise_project_id = metadata.epid;
        capacity = capacity;
      }))

  unfoldable pub create_bucket : String → String → M State (Unit {0})
  create_bucket bucket_name acl = do
    client ← get_obs_client C c
    map_error creation_error (
        C.create_bucket client (record {
          bucket = bucket_name;
          acl = acl;
          is_fs_file_interface = true;
          location = c.region;
        }))

  unfoldable pub delete_bucket : String → M State (Unit {0})
  delete_bucket bucket_name = do
    client ← get_obs_client C c
    map_error deletion_error (C.delete_bucket client bucket_name)

  unfoldable pub add_bucket_tags : String → List Tag → M State (Unit {0})
  add_bucket_tags bucket_name tags = do
    client ← get_obs_client C c
    map_error bucket_error (C.set_bucket_tagging client bucket_name tags)

  unfoldable pub list_bucket_tags : String → M State (List Tag)
  list_bucket_tags bucket_name = do
    client ← get_obs_client C c
    attempt (C.get_bucket_tagging client bucket_name) without_tags pure

  unfoldable pub get_bucket_storage : String → M State StorageInfo
  get_bucket_storage bucket_name = do
    client ← get_obs_client C c
    map_error bucket_error (C.get_bucket_storage_info client bucket_name)

  unfoldable pub set_bucket_capacity : String → ℤ → M State (Unit {0})
  set_bucket_capacity bucket_name capacity = do
    client ← get_obs_client C c
    if leb_ℤ capacity (pos 0)
        then pure tt
        else map_error bucket_error (C.set_bucket_quota client bucket_name capacity)

  -- The goroutines of ListBuckets, one after another in the order in which they are started. An error
  -- stops none of the others.
  unfoldable pub get_all : List String → M State (List Bucket)
  get_all [] s = (ok [], s)
  get_all (name ∷ rest) s =
      let (r, s₁) = get_parallel_fs_bucket name s in
      let (others, s₂) = get_all rest s₁ in (joined r others, s₂)

  -- ListBuckets. `make` panics where the count is negative.
  unfoldable pub list_buckets : ListOpts → M State (List Bucket)
  list_buckets opts = do
    client ← get_obs_client C c
    names ← C.list_buckets client (record { query_location = false; bucket_type = "POSIX" })
    if ltb_ℤ (bucket_count opts.marker names opts.limit) (pos 0)
        then fail panic
        else get_all (page_names opts.marker names opts.limit)

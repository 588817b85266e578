-- ===== src/Obs/Sdk.antt =====
-- The cloud as the OBS driver sees it: the SDK's data, and its calls as an interface. The calls are those
-- of github.com/huaweicloud/huaweicloud-sdk-go-obs; nothing is assumed of what they do.
use huaweicloud_csi_driver.Prelude.{String, Bool, List, ℤ}
use huaweicloud_csi_driver.Effect.{M}

-- obs.ObsClient: the address that its requests go to
pub record ObsClient : Type 0 where
  pub endpoint : String

-- obs.GetBucketMetadataOutput
pub record BucketMetadata : Type 0 where
  pub location : String
  pub az_redundancy : String
  pub epid : String
  pub fs_status : String

-- obs.CreateBucketInput
pub record CreateBucketInput : Type 0 where
  pub bucket : String
  pub acl : String
  pub is_fs_file_interface : Bool
  pub location : String

-- obs.ListBucketsInput
pub record ListBucketsInput : Type 0 where
  pub query_location : Bool
  pub bucket_type : String

-- obs.Tag
pub record Tag : Type 0 where
  pub key : String
  pub value : String

-- obs.GetBucketStorageInfoOutput
pub record StorageInfo : Type 0 where
  pub size : ℤ
  pub object_number : ℤ

-- obs.Upload
pub record Upload : Type 0 where
  pub upload_id : String
  pub key : String

-- obs.DeleteObjectsOutput: the keys that were deleted, and those that were not
pub record DeleteObjectsOutput : Type 0 where
  pub deleteds : List String
  pub errors : List String

-- Objects are given by their keys, buckets by their names.
pub record ObsCloud : Type 1 where
  pub State : Type 0
  -- obs.New and obs.InitLog
  pub obs_new : String → M State ObsClient
  pub init_log : M State (Unit {0})
  pub get_bucket_metadata : ObsClient → String → M State BucketMetadata
  pub create_bucket : ObsClient → CreateBucketInput → M State (Unit {0})
  pub delete_bucket : ObsClient → String → M State (Unit {0})
  pub list_buckets : ObsClient → ListBucketsInput → M State (List String)
  pub set_bucket_tagging : ObsClient → String → List Tag → M State (Unit {0})
  pub get_bucket_tagging : ObsClient → String → M State (List Tag)
  pub get_bucket_storage_info : ObsClient → String → M State StorageInfo
  pub get_bucket_quota : ObsClient → String → M State ℤ
  pub set_bucket_quota : ObsClient → String → ℤ → M State (Unit {0})
  -- at most so many keys
  pub list_objects : ObsClient → String → ℤ → M State (List String)
  pub delete_objects : ObsClient → String → List String → M State DeleteObjectsOutput
  pub list_multipart_uploads : ObsClient → String → M State (List Upload)
  pub abort_multipart_upload : ObsClient → String → Upload → M State (Unit {0})

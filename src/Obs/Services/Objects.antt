-- ===== src/Obs/Services/Objects.antt =====
-- pkg/obs/services/objects.go, and CleanBucket of buckets.go.
use huaweicloud_csi_driver.Prelude.{
  ℕ, zero, suc, String, List, [], ◌∷◌, length, eqb, if◌then◌else◌, ℤ, pos,
}
use huaweicloud_csi_driver.Status.{Error, refuse, wrapping, internal, not_found, out_of_fuel}
use huaweicloud_csi_driver.Effect.{M, pure, fail, ◌>>=◌, ◌>>◌, map_error}
use huaweicloud_csi_driver.Config.{CloudCredentials}
use huaweicloud_csi_driver.Obs.Sdk.{ObsCloud, ObsClient, Upload}
use huaweicloud_csi_driver.Obs.Services.Client.{has_http_status, bucket_error, get_obs_client}

-- The errors of ListObjects, of which an Internal one wraps none.
unfoldable pub listing_error : Error → Error
listing_error e = if has_http_status 404 e then wrapping not_found e else refuse internal

module _ (C : ObsCloud) (c : CloudCredentials) where
  open C use {State}

  unfoldable pub list_objects : String → ℤ → M State (List String)
  list_objects bucket_name max_keys = do
    client ← get_obs_client C c
    map_error listing_error (C.list_objects client bucket_name max_keys)

  -- The keys of one listing are deleted, and then what is left.
  unfoldable pub delete_listed :
      ObsClient → String → List String → M State (Unit {0}) → M State (Unit {0})
  delete_listed client bucket_name [] rest = pure tt
  delete_listed client bucket_name (key ∷ keys) rest = do
    output ← map_error (wrapping internal) (C.delete_objects client bucket_name (key ∷ keys))
    if eqb (length output.deleteds) (length (key ∷ keys)) then rest else fail (refuse internal)

  -- The loop of DeleteObjects, for a number of rounds at most.
  unfoldable pub delete_rounds : ℕ → ObsClient → String → M State (Unit {0})
  delete_rounds zero client bucket_name = fail out_of_fuel
  delete_rounds (suc rounds) client bucket_name = list_objects bucket_name (pos 1000) >>= λ keys.
      delete_listed client bucket_name keys (delete_rounds rounds client bucket_name)

  unfoldable pub delete_objects : ℕ → String → M State (Unit {0})
  delete_objects rounds bucket_name = do
    client ← get_obs_client C c
    delete_rounds rounds client bucket_name

  unfoldable pub list_multipart_uploads : String → M State (List Upload)
  list_multipart_uploads bucket_name = do
    client ← get_obs_client C c
    map_error bucket_error (C.list_multipart_uploads client bucket_name)

  unfoldable pub abort_all : ObsClient → String → List Upload → M State (Unit {0})
  abort_all client bucket_name [] = pure tt
  abort_all client bucket_name (job ∷ rest) = do
    map_error (wrapping internal) (C.abort_multipart_upload client bucket_name job)
    abort_all client bucket_name rest

  unfoldable pub abort_multipart_upload : String → M State (Unit {0})
  abort_multipart_upload bucket_name = do
    client ← get_obs_client C c
    uploads ← list_multipart_uploads bucket_name
    abort_all client bucket_name uploads

  unfoldable pub clean_bucket : ℕ → String → M State (Unit {0})
  clean_bucket rounds bucket_name = do
    abort_multipart_upload bucket_name
    delete_objects rounds bucket_name

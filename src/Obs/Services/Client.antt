-- ===== src/Obs/Services/Client.antt =====
-- getObsClient of pkg/obs/services/buckets.go, and the errors that the services make of the SDK's.
use huaweicloud_csi_driver.Prelude.{ℕ, String, ◌<>◌, ◌==◌, Bool, false, eqb, if◌then◌else◌}
use huaweicloud_csi_driver.Status.{Error, obs_error, wrapping, internal, not_found}
use huaweicloud_csi_driver.Effect.{M, pure, ◌>>=◌, ◌>>◌, map_error}
use huaweicloud_csi_driver.Config.{CloudCredentials}
use huaweicloud_csi_driver.Obs.Sdk.{ObsCloud, ObsClient}

-- obsError, ok := err.(obs.ObsError); ok && obsError.StatusCode == code
abbrev pub has_http_status : ℕ → Error → Bool
has_http_status code (obs_error http_status _ _) = eqb http_status code
has_http_status code _ = false

-- The errors of most services: a missing bucket is NotFound, all else Internal.
unfoldable pub bucket_error : Error → Error
bucket_error e = if has_http_status 404 e then wrapping not_found e else wrapping internal e

-- The name of the service in the endpoint.
unfoldable pub obs_endpoint : CloudCredentials → String
obs_endpoint c =
    let obs_name : String =
      if c.cloud == "prod-cloud-ocb.orange-business.com" then "oss" else "obs" in
    obs_name <> ("." <> (c.region <> ("." <> c.cloud)))

-- getObsClient
unfoldable pub get_obs_client : (C : ObsCloud) → CloudCredentials → M C.State ObsClient
unfolding obs_endpoint
get_obs_client C c = do
  client ← map_error (wrapping internal) (C.obs_new (obs_endpoint c))
  map_error (wrapping internal) C.init_log
  pure client

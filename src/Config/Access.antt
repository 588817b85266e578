-- ===== src/Config/Access.antt =====
-- The clients as the services fetch them: `get…Client`, whose error is an Internal status.
use huaweicloud_csi_driver.Status.{Result, ok, err, wrapping, internal}
use huaweicloud_csi_driver.Config.{
  CloudCredentials, ServiceClient, evs_v2_client, evs_v21_client, evs_v1_client, ecs_v1_client,
  ecs_v21_client, sfs_turbo_v1_client,
}

abbrev or_internal : Result ServiceClient → Result ServiceClient
or_internal (ok client) = ok client
or_internal (err e) = err (wrapping internal e)

module _ (cc : CloudCredentials) where
  unfoldable pub get_evs_v2_client : Result ServiceClient
  get_evs_v2_client = or_internal (evs_v2_client cc)

  unfoldable pub get_evs_v21_client : Result ServiceClient
  get_evs_v21_client = or_internal (evs_v21_client cc)

  unfoldable pub get_job_v1_client : Result ServiceClient
  get_job_v1_client = or_internal (evs_v1_client cc)

  unfoldable pub get_ecs_v1_client : Result ServiceClient
  get_ecs_v1_client = or_internal (ecs_v1_client cc)

  unfoldable pub get_ecs_v21_client : Result ServiceClient
  get_ecs_v21_client = or_internal (ecs_v21_client cc)

  unfoldable pub get_sfs_turbo_v1_client : Result ServiceClient
  get_sfs_turbo_v1_client = or_internal (sfs_turbo_v1_client cc)

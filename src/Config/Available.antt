-- ===== src/Config/Available.antt =====
-- The services always get their clients.
use huaweicloud_csi_driver.Prelude.{◌≡◌, refl}
use huaweicloud_csi_driver.Status.{ok}
use huaweicloud_csi_driver.Config.{
  CloudCredentials, new_service_client, sfs_turbo_v1_client, ecs_v1_client, ecs_v21_client,
  evs_v2_client, evs_v21_client, evs_v1_client,
}
use huaweicloud_csi_driver.Config.Clients.{client_at}
use huaweicloud_csi_driver.Config.Access.{
  get_evs_v2_client, get_evs_v21_client, get_job_v1_client, get_ecs_v1_client, get_ecs_v21_client,
  get_sfs_turbo_v1_client,
}

module _ (cc : CloudCredentials) where
  pub get_evs_v2_client_lem : get_evs_v2_client cc ≡ ok (client_at cc "evs" "v2")
  unfolding get_evs_v2_client evs_v2_client new_service_client
  get_evs_v2_client_lem = refl

  pub get_evs_v21_client_lem : get_evs_v21_client cc ≡ ok (client_at cc "evs" "v2.1")
  unfolding get_evs_v21_client evs_v21_client new_service_client
  get_evs_v21_client_lem = refl

  pub get_job_v1_client_lem : get_job_v1_client cc ≡ ok (client_at cc "evs" "v1")
  unfolding get_job_v1_client evs_v1_client new_service_client
  get_job_v1_client_lem = refl

  pub get_ecs_v1_client_lem : get_ecs_v1_client cc ≡ ok (client_at cc "ecs" "v1")
  unfolding get_ecs_v1_client ecs_v1_client new_service_client
  get_ecs_v1_client_lem = refl

  pub get_ecs_v21_client_lem : get_ecs_v21_client cc ≡ ok (client_at cc "ecs" "v2.1")
  unfolding get_ecs_v21_client ecs_v21_client new_service_client
  get_ecs_v21_client_lem = refl

  pub get_sfs_turbo_v1_client_lem : get_sfs_turbo_v1_client cc ≡ ok (client_at cc "sfs-turbo" "v1")
  unfolding get_sfs_turbo_v1_client sfs_turbo_v1_client new_service_client
  get_sfs_turbo_v1_client_lem = refl

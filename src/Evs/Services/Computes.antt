-- ===== src/Evs/Services/Computes.antt =====
-- pkg/evs/services/computes.go
use huaweicloud_csi_driver.Prelude.{String, ◌==◌, Bool, true, false, if◌then◌else◌}
use huaweicloud_csi_driver.Status.{wrapping, refuse, status, internal}
use huaweicloud_csi_driver.Effect.{M, pure, fail, lift, attempt, ◌>>=◌, map_error}
use huaweicloud_csi_driver.Common.{wait_for_completed}
use huaweicloud_csi_driver.Config.{CloudCredentials, ServiceClient}
use huaweicloud_csi_driver.Config.Access.{get_ecs_v1_client, get_ecs_v21_client}
use huaweicloud_csi_driver.Evs.Sdk.{Cloud}
use huaweicloud_csi_driver.Evs.Services.Volumes.{query_error, get_volume}

module _ (C : Cloud) (cc : CloudCredentials) where
  open C use {State}

  unfoldable pub get_server : String → M State (Unit {0})
  unfolding query_error
  get_server server_id = do
    client ← lift (get_ecs_v21_client cc)
    map_error query_error (C.server_get client server_id)

  -- The closure of waitForCondition.
  unfoldable pub ecs_condition : ServiceClient → String → M State Bool
  ecs_condition client job_id =
      attempt (C.ecs_job client job_id) (λ _. fail (refuse internal))
        λ job.
          if job.status == "SUCCESS"
          then pure true
          else if job.status == "FAIL"
          then fail (status internal job.detail)
          else pure false

  -- waitForVolumeAttached and waitForVolumeDetached
  unfoldable pub wait_for_ecs_job : String → M State (Unit {0})
  wait_for_ecs_job job_id = do
    client ← lift (get_ecs_v1_client cc)
    wait_for_completed C.timer (ecs_condition client job_id)

  unfoldable pub attach_volume_completed : String → String → M State (Unit {0})
  attach_volume_completed server_id volume_id = do
    client ← lift (get_ecs_v1_client cc)
    job_id ← map_error (wrapping internal) (C.attach client server_id volume_id)
    map_error (wrapping internal) (wait_for_ecs_job job_id)

  unfoldable pub attaching_condition : String → M State Bool
  attaching_condition volume_id =
      attempt (get_volume C cc volume_id) (λ e. fail (wrapping internal e))
        λ volume.
          if volume.status == "in-use"
          then pure true
          else if volume.status == "attaching"
          then pure false
          else fail (refuse internal)

  unfoldable pub wait_for_volume_attaching : String → M State (Unit {0})
  wait_for_volume_attaching volume_id = wait_for_completed C.timer (attaching_condition volume_id)

  -- An error of the request itself is handed on as it is.
  unfoldable pub detach_volume_completed : String → String → M State (Unit {0})
  detach_volume_completed server_id volume_id = do
    client ← lift (get_ecs_v1_client cc)
    job_id ← C.detach client server_id volume_id
    map_error (wrapping internal) (wait_for_ecs_job job_id)

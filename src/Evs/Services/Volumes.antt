-- ===== src/Evs/Services/Volumes.antt =====
-- pkg/evs/services/volumes.go
use huaweicloud_csi_driver.Prelude.{
  String, ◌==◌, Bool, true, false, ◌||◌, Option, none, some, List, [], ◌∷◌, if◌then◌else◌, ℤ, pos,
  eqb_ℤ,
}
use huaweicloud_csi_driver.Status.{
  Error, wrapping, refuse, status, plain, text, is_not_found, internal, not_found, already_exists,
}
use huaweicloud_csi_driver.Effect.{
  M, pure, fail, lift, attempt, ◌>>=◌, ◌>>◌, map_error, with_variable, assign, in_closure,
}
use huaweicloud_csi_driver.Common.{wait_for_completed}
use huaweicloud_csi_driver.Config.{CloudCredentials, ServiceClient}
use huaweicloud_csi_driver.Config.Access.{get_evs_v2_client, get_evs_v21_client, get_job_v1_client}
use huaweicloud_csi_driver.Evs.Sdk.{Cloud, Volume, CreateOpts, ListOpts}

-- A missing thing is NotFound, any other error of the query is Internal.
unfoldable pub query_error : Error → Error
unfolding is_not_found
query_error e = if is_not_found e then refuse not_found else wrapping internal e

-- The tests of CheckVolumeExists on the volumes that have the name.
unfoldable pub same_name : {S : Type 0} → ℤ → List Volume → M S (Option Volume)
same_name size_gb [] = pure none
same_name size_gb (vol ∷ []) =
    if eqb_ℤ size_gb vol.size then pure (some vol) else fail (refuse already_exists)
same_name size_gb (vol ∷ other ∷ rest) = fail (refuse already_exists)

module _ (C : Cloud) (cc : CloudCredentials) where
  open C use {State}

  -- The closure of waitForJobFinished, which keeps the volume's id.
  unfoldable pub job_condition : ServiceClient → String → M (State × String) Bool
  job_condition client job_id =
      attempt (in_closure (C.evs_job client job_id)) (λ _. fail (refuse internal))
        λ job.
          if job.status == "SUCCESS"
          then (do assign job.volume_id; pure true)
          else if job.status == "FAIL"
          then fail (status internal job.detail)
          else pure false

  unfoldable pub wait_for_job_finished : String → M State String
  wait_for_job_finished job_id = do
    client ← lift (get_job_v1_client cc)
    with_variable "" (wait_for_completed C.timer (job_condition client job_id))

  unfoldable pub create_volume_completed : CreateOpts → M State String
  create_volume_completed opts = do
    client ← lift (get_evs_v21_client cc)
    job_id ← map_error (λ e. plain (text e)) (C.volumes_create client opts)
    wait_for_job_finished job_id

  unfoldable pub get_volume : String → M State Volume
  unfolding query_error
  get_volume id = do
    client ← lift (get_evs_v2_client cc)
    map_error query_error (C.volumes_get client id)

  unfoldable pub cinder_condition : String → M State Bool
  cinder_condition cinder_id =
      attempt (get_volume cinder_id) (λ e. fail (wrapping internal e))
        λ vol.
          if vol.status == "available" || vol.status == "in-use"
          then pure true
          else if vol.status == "error"
          then fail (refuse internal)
          else pure false

  unfoldable pub wait_for_cinder_finished : String → M State (Unit {0})
  wait_for_cinder_finished cinder_id = wait_for_completed C.timer (cinder_condition cinder_id)

  -- The cinder request has no place for the scheduler's storage id.
  unfoldable pub create_cinder_completed : CreateOpts → M State String
  create_cinder_completed opts = do
    client ← lift (get_evs_v2_client cc)
    cinder_id ← map_error (λ e. plain (text e)) (C.cinder_create client opts.volume)
    wait_for_cinder_finished cinder_id
    pure cinder_id

  unfoldable pub list_volumes : ListOpts → M State (List Volume)
  list_volumes opts = do
    client ← lift (get_evs_v2_client cc)
    map_error (wrapping internal) (C.volumes_list client opts)

  unfoldable pub check_volume_exists : String → ℤ → M State (Option Volume)
  unfolding same_name
  check_volume_exists name size_gb = do
    volumes ←
        map_error (wrapping internal)
          (list_volumes (record { name = name; marker = ""; limit = pos 0 }))
    same_name size_gb volumes

  unfoldable pub expand_volume : String → ℤ → M State (Unit {0})
  expand_volume id new_size = do
    client ← lift (get_evs_v21_client cc)
    job_id ← map_error (wrapping internal) (C.volumes_extend client id new_size)
    wait_for_job_finished job_id
    pure tt

  unfoldable pub delete_volume : String → M State (Unit {0})
  delete_volume id = do client ← lift (get_evs_v2_client cc); C.volumes_delete client id

-- ===== src/Evs/Services/Effects.antt =====
-- Which calls of the cloud the services make: a predicate that the queries keep is kept by the
-- services that only query, and by those that change something if it is kept by that one request.
use huaweicloud_csi_driver.Prelude.{String, Bool, true, ℤ}
use huaweicloud_csi_driver.Effect.{M}
use huaweicloud_csi_driver.Effect.Keeps.{
  Keeps, keeps_rules, Outside, Keeps-with_variable, Keeps-assign, Keeps-in_closure,
}
use huaweicloud_csi_driver.Common.{IsTimer, wait_for_completed}
use huaweicloud_csi_driver.Common.Waiting.{Keeps-wait_for_completed}
use huaweicloud_csi_driver.Config.{CloudCredentials, ServiceClient}
use huaweicloud_csi_driver.Evs.Sdk.{Cloud, CreateOpts, ListOpts, SnapshotListOpts}
use huaweicloud_csi_driver.Evs.Services.Volumes.{
  job_condition, wait_for_job_finished, create_volume_completed, get_volume, cinder_condition,
  wait_for_cinder_finished, create_cinder_completed, list_volumes, expand_volume, delete_volume,
}
use huaweicloud_csi_driver.Evs.Services.Computes.{
  get_server, ecs_condition, wait_for_ecs_job, attach_volume_completed, attaching_condition,
  wait_for_volume_attaching, detach_volume_completed,
}
use huaweicloud_csi_driver.Evs.Services.Snapshots.{
  get_snapshot, list_snapshots, create_snapshot, ready_condition, wait_snapshot_ready,
  create_snapshot_completed, delete_snapshot,
}

-- A predicate that no query of the cloud changes.
pub record QueriesKeep (C : Cloud) (P : C.State → Type 0) : Type 0 where
  pub volumes_get : (client : ServiceClient) (id : String) → Keeps P (C.volumes_get client id)
  pub volumes_list :
      (client : ServiceClient) (opts : ListOpts) → Keeps P (C.volumes_list client opts)
  pub evs_job : (client : ServiceClient) (id : String) → Keeps P (C.evs_job client id)
  pub server_get : (client : ServiceClient) (id : String) → Keeps P (C.server_get client id)
  pub ecs_job : (client : ServiceClient) (id : String) → Keeps P (C.ecs_job client id)
  pub snapshots_get : (client : ServiceClient) (id : String) → Keeps P (C.snapshots_get client id)
  pub snapshots_list :
      (client : ServiceClient) (opts : SnapshotListOpts) → Keeps P (C.snapshots_list client opts)

module _ (C : Cloud) (cc : CloudCredentials) (lawful : IsTimer C.timer) {P : C.State → Type 0}
    (queries : QueriesKeep C P) where
  pub get_volume-Keeps : (id : String) → Keeps P (get_volume C cc id)
  unfolding get_volume
  get_volume-Keeps id = search (keeps_rules, queries.volumes_get)

  pub list_volumes-Keeps : (opts : ListOpts) → Keeps P (list_volumes C cc opts)
  unfolding list_volumes
  list_volumes-Keeps opts = search (keeps_rules, queries.volumes_list)

  pub get_server-Keeps : (id : String) → Keeps P (get_server C cc id)
  unfolding get_server
  get_server-Keeps id = search (keeps_rules, queries.server_get)

  pub get_snapshot-Keeps : (id : String) → Keeps P (get_snapshot C cc id)
  unfolding get_snapshot
  get_snapshot-Keeps id = search (keeps_rules, queries.snapshots_get)

  pub list_snapshots-Keeps : (opts : SnapshotListOpts) → Keeps P (list_snapshots C cc opts)
  unfolding list_snapshots
  list_snapshots-Keeps opts = search (keeps_rules, queries.snapshots_list)

  waits :
      (condition : M C.State Bool)
      → Keeps P condition
      → Keeps P (wait_for_completed C.timer condition)
  waits condition k = Keeps-wait_for_completed C.timer condition lawful k

  waits_in :
      (condition : M (C.State × String) Bool)
      → Keeps (Outside P) condition
      → Keeps (Outside P) (wait_for_completed C.timer condition)
  waits_in condition k = Keeps-wait_for_completed C.timer condition lawful k

  job_condition-Keeps :
      (client : ServiceClient) (id : String) → Keeps (Outside P) (job_condition C cc client id)
  unfolding job_condition
  job_condition-Keeps client id =
      search (keeps_rules, Keeps-in_closure, Keeps-assign, queries.evs_job)

  wait_for_job_finished-Keeps : (id : String) → Keeps P (wait_for_job_finished C cc id)
  unfolding wait_for_job_finished
  wait_for_job_finished-Keeps id =
      search (keeps_rules, Keeps-with_variable, waits_in, job_condition-Keeps)

  cinder_condition-Keeps : (id : String) → Keeps P (cinder_condition C cc id)
  unfolding cinder_condition
  cinder_condition-Keeps id = search (keeps_rules, get_volume-Keeps)

  wait_for_cinder_finished-Keeps : (id : String) → Keeps P (wait_for_cinder_finished C cc id)
  unfolding wait_for_cinder_finished
  wait_for_cinder_finished-Keeps id = waits _ (cinder_condition-Keeps id)

  ecs_condition-Keeps :
      (client : ServiceClient) (id : String) → Keeps P (ecs_condition C cc client id)
  unfolding ecs_condition
  ecs_condition-Keeps client id = search (keeps_rules, queries.ecs_job)

  wait_for_ecs_job-Keeps : (id : String) → Keeps P (wait_for_ecs_job C cc id)
  unfolding wait_for_ecs_job
  wait_for_ecs_job-Keeps id = search (keeps_rules, waits, ecs_condition-Keeps)

  attaching_condition-Keeps : (id : String) → Keeps P (attaching_condition C cc id)
  unfolding attaching_condition
  attaching_condition-Keeps id = search (keeps_rules, get_volume-Keeps)

  pub wait_for_volume_attaching-Keeps : (id : String) → Keeps P (wait_for_volume_attaching C cc id)
  unfolding wait_for_volume_attaching
  wait_for_volume_attaching-Keeps id = waits _ (attaching_condition-Keeps id)

  ready_condition-Keeps : (id : String) → Keeps P (ready_condition C cc id)
  unfolding ready_condition
  ready_condition-Keeps id = search (keeps_rules, get_snapshot-Keeps)

  wait_snapshot_ready-Keeps : (id : String) → Keeps P (wait_snapshot_ready C cc id)
  unfolding wait_snapshot_ready
  wait_snapshot_ready-Keeps id = waits _ (ready_condition-Keeps id)

  -- The services that change something.
  pub create_volume_completed-Keeps :
      (opts : CreateOpts)
      → ((client : ServiceClient) → Keeps P (C.volumes_create client opts))
      → Keeps P (create_volume_completed C cc opts)
  unfolding create_volume_completed
  create_volume_completed-Keeps opts h = search (keeps_rules, h, wait_for_job_finished-Keeps)

  pub create_cinder_completed-Keeps :
      (opts : CreateOpts)
      → ((client : ServiceClient) → Keeps P (C.cinder_create client opts.volume))
      → Keeps P (create_cinder_completed C cc opts)
  unfolding create_cinder_completed
  create_cinder_completed-Keeps opts h = search (keeps_rules, h, wait_for_cinder_finished-Keeps)

  pub expand_volume-Keeps :
      (id : String) (size : ℤ)
      → ((client : ServiceClient) → Keeps P (C.volumes_extend client id size))
      → Keeps P (expand_volume C cc id size)
  unfolding expand_volume
  expand_volume-Keeps id size h = search (keeps_rules, h, wait_for_job_finished-Keeps)

  pub delete_volume-Keeps :
      (id : String)
      → ((client : ServiceClient) → Keeps P (C.volumes_delete client id))
      → Keeps P (delete_volume C cc id)
  unfolding delete_volume
  delete_volume-Keeps id h = search (keeps_rules, h)

  pub attach_volume_completed-Keeps :
      (server volume : String)
      → ((client : ServiceClient) → Keeps P (C.attach client server volume))
      → Keeps P (attach_volume_completed C cc server volume)
  unfolding attach_volume_completed
  attach_volume_completed-Keeps server volume h = search (keeps_rules, h, wait_for_ecs_job-Keeps)

  pub detach_volume_completed-Keeps :
      (server volume : String)
      → ((client : ServiceClient) → Keeps P (C.detach client server volume))
      → Keeps P (detach_volume_completed C cc server volume)
  unfolding detach_volume_completed
  detach_volume_completed-Keeps server volume h = search (keeps_rules, h, wait_for_ecs_job-Keeps)

  pub create_snapshot_completed-Keeps :
      (name volume : String)
      → ((client : ServiceClient)
          → Keeps P (
              C.snapshots_create client (record { volume_id = volume; name = name; force = true })))
      → Keeps P (create_snapshot_completed C cc name volume)
  unfolding create_snapshot_completed create_snapshot
  create_snapshot_completed-Keeps name volume h = search (keeps_rules, h, wait_snapshot_ready-Keeps)

  pub delete_snapshot-Keeps :
      (id : String)
      → ((client : ServiceClient) → Keeps P (C.snapshots_delete client id))
      → Keeps P (delete_snapshot C cc id)
  unfolding delete_snapshot
  delete_snapshot-Keeps id h = search (keeps_rules, h)

-- ===== src/Evs/Services/Snapshots.antt =====
-- pkg/evs/services/snapshots.go
use huaweicloud_csi_driver.Prelude.{String, ◌==◌, Bool, true, false, if◌then◌else◌}
use huaweicloud_csi_driver.Status.{wrapping, refuse, internal}
use huaweicloud_csi_driver.Effect.{M, pure, fail, lift, attempt, ◌>>=◌, ◌>>◌, map_error}
use huaweicloud_csi_driver.Common.{wait_for_completed}
use huaweicloud_csi_driver.Config.{CloudCredentials}
use huaweicloud_csi_driver.Config.Access.{get_evs_v2_client}
use huaweicloud_csi_driver.Evs.Sdk.{
  Cloud, Snapshot, SnapshotListOpts, PagedList, SnapshotCreateOpts,
}

module _ (C : Cloud) (cc : CloudCredentials) where
  open C use {State}

  unfoldable pub get_snapshot : String → M State Snapshot
  get_snapshot id = do client ← lift (get_evs_v2_client cc); C.snapshots_get client id

  unfoldable pub list_snapshots : SnapshotListOpts → M State PagedList
  list_snapshots opts = do
    client ← lift (get_evs_v2_client cc)
    map_error (wrapping internal) (C.snapshots_list client opts)

  unfoldable pub create_snapshot : SnapshotCreateOpts → M State Snapshot
  create_snapshot opts = do client ← lift (get_evs_v2_client cc); C.snapshots_create client opts

  unfoldable pub ready_condition : String → M State Bool
  ready_condition snapshot_id =
      attempt (get_snapshot snapshot_id) (λ e. fail (wrapping internal e))
        λ snapshot.
          if snapshot.status == "available"
          then pure true
          else if snapshot.status == "creating"
          then pure false
          else fail (refuse internal)

  unfoldable pub wait_snapshot_ready : String → M State (Unit {0})
  wait_snapshot_ready snapshot_id = wait_for_completed C.timer (ready_condition snapshot_id)

  -- The snapshot as the request returned it, once it is ready.
  unfoldable pub create_snapshot_completed : String → String → M State Snapshot
  create_snapshot_completed name volume_id = do
    snap ← create_snapshot (record { volume_id = volume_id; name = name; force = true })
    wait_snapshot_ready snap.id
    pure snap

  unfoldable pub delete_snapshot : String → M State (Unit {0})
  delete_snapshot snapshot_id = do
    client ← lift (get_evs_v2_client cc)
    C.snapshots_delete client snapshot_id

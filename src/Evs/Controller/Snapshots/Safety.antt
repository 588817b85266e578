-- ===== src/Evs/Controller/Snapshots/Safety.antt =====
-- Which requests the calls on snapshots can send. A property of the cloud is a predicate on its
-- states that the queries keep.
use huaweicloud_csi_driver.Prelude.{String, true, Option, none, some, List, [], ◌∷◌}
use huaweicloud_csi_driver.Effect.Keeps.{Keeps, keeps_rules}
use huaweicloud_csi_driver.Common.{IsTimer}
use huaweicloud_csi_driver.Config.{ServiceClient}
use huaweicloud_csi_driver.Evs.Sdk.{Cloud}
use huaweicloud_csi_driver.Evs.Driver.{EvsDriver}
use huaweicloud_csi_driver.Csi
use huaweicloud_csi_driver.Csi.{ListSnapshotsRequest}
use huaweicloud_csi_driver.Evs.Sdk.{Snapshot}
use huaweicloud_csi_driver.Evs.Services.Effects.{
  QueriesKeep, get_volume-Keeps, list_snapshots-Keeps, create_snapshot_completed-Keeps,
  delete_snapshot-Keeps,
}
use huaweicloud_csi_driver.Evs.Controller.Snapshots.{
  create_snapshot_validation, same_name, check_duplicate_snapshot_name, take_or_reuse,
  take_snapshot, remove_snapshot, list_snapshot_page,
}

module _ {S : Type 0} {P : S → Type 0} where
  same_name-Keeps :
      (volume_id : String) (snaps : List Snapshot) → Keeps P (same_name volume_id snaps)
  unfolding same_name
  same_name-Keeps volume_id [] = search keeps_rules
  same_name-Keeps volume_id (snap ∷ []) = search keeps_rules
  same_name-Keeps volume_id (snap ∷ other ∷ rest) = search keeps_rules

  validation-Keeps : (name volume_id : String) → Keeps P (create_snapshot_validation name volume_id)
  unfolding create_snapshot_validation
  validation-Keeps name volume_id = search keeps_rules

module _ (C : Cloud) (d : EvsDriver) (lawful : IsTimer C.timer) {P : C.State → Type 0}
    (queries : QueriesKeep C P) where
  check_duplicate-Keeps :
      (name volume_id : String)
      → Keeps P (check_duplicate_snapshot_name C d.cloud_credentials name volume_id)
  unfolding check_duplicate_snapshot_name
  check_duplicate-Keeps name volume_id =
      search
        (keeps_rules, same_name-Keeps, list_snapshots-Keeps C d.cloud_credentials lawful queries)

  -- What the request that takes the snapshot keeps.
  abbrev pub CreationKeeps : String → String → Type 0
  CreationKeeps name volume_id =
      (client : ServiceClient)
      → Keeps P
          (C.snapshots_create client (record { volume_id = volume_id; name = name; force = true }))

  take_or_reuse-Keeps :
      (name volume_id : String) (found : Option Csi.Snapshot)
      → CreationKeeps name volume_id
      → Keeps P (take_or_reuse C d.cloud_credentials name volume_id found)
  unfolding take_or_reuse
  take_or_reuse-Keeps name volume_id (some response) h = search keeps_rules
  take_or_reuse-Keeps name volume_id none h = search (
    keeps_rules,
    get_volume-Keeps C d.cloud_credentials lawful queries,
    create_snapshot_completed-Keeps C d.cloud_credentials lawful queries,
    h,
  )

  -- CreateSnapshot changes nothing but by the request that takes a snapshot of the volume that it is
  -- given, under the name that it is given.
  pub take_snapshot-Keeps :
      (name volume_id : String)
      → CreationKeeps name volume_id
      → Keeps P (take_snapshot C d name volume_id)
  unfolding take_snapshot
  take_snapshot-Keeps name volume_id h =
      search (keeps_rules, validation-Keeps, check_duplicate-Keeps, take_or_reuse-Keeps, h)

  -- DeleteSnapshot changes nothing but by the request that deletes the snapshot that it is given.
  pub remove_snapshot-Keeps :
      (id : String)
      → ((client : ServiceClient) → Keeps P (C.snapshots_delete client id))
      → Keeps P (remove_snapshot C d id)
  unfolding remove_snapshot
  remove_snapshot-Keeps id h =
      search (keeps_rules, delete_snapshot-Keeps C d.cloud_credentials lawful queries, h)

  -- ListSnapshots sends a query alone.
  pub list_snapshot_page-Keeps : (req : ListSnapshotsRequest) → Keeps P (list_snapshot_page C d req)
  unfolding list_snapshot_page
  list_snapshot_page-Keeps req =
      search (keeps_rules, list_snapshots-Keeps C d.cloud_credentials lawful queries)

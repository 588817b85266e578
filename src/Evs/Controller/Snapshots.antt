-- ===== src/Evs/Controller/Snapshots.antt =====
-- The snapshot calls of pkg/evs/controllerserver.go.
pub mod Safety
pub mod Paging
pub mod Taking
use huaweicloud_csi_driver.Prelude.{
  ℕ, String, ◌==◌, Bool, true, false, Option, none, some, List, [], ◌∷◌, map, length, if◌then◌else◌,
  ℤ, pos, ltb_ℤ, ◌+ℤ◌, wrap,
}
use huaweicloud_csi_driver.Status.{
  Error, wrapping, refuse, is_not_found, internal, invalid_argument, already_exists,
}
use huaweicloud_csi_driver.Effect.{M, pure, fail, attempt, ◌>>=◌, ◌>>◌, map_error}
use huaweicloud_csi_driver.Utils.{gb_to_bytes}
use huaweicloud_csi_driver.Utils.Decimal.{atoi, itoa}
use huaweicloud_csi_driver.Config.{CloudCredentials}
use huaweicloud_csi_driver.Csi
use huaweicloud_csi_driver.Csi.{ListSnapshotsRequest, ListSnapshotsResponse}
use huaweicloud_csi_driver.Evs.Sdk.{Cloud, Snapshot, SnapshotListOpts, PagedList}
use huaweicloud_csi_driver.Evs.Driver.{EvsDriver}
use huaweicloud_csi_driver.Evs.Services.Volumes.{get_volume}
use huaweicloud_csi_driver.Evs.Services.Snapshots.{
  list_snapshots, create_snapshot_completed, delete_snapshot,
}

-- buildSnapshotResponse, and generateListSnapshotsResponseEntry: the same fields.
unfoldable pub build_snapshot_response : Snapshot → Csi.Snapshot
unfolding gb_to_bytes
build_snapshot_response snap = record {
  size_bytes = gb_to_bytes snap.size;
  snapshot_id = snap.id;
  source_volume_id = snap.volume_id;
  creation_time = snap.created_at;
  ready_to_use = true;
}

unfoldable pub create_snapshot_validation : {S : Type 0} → String → String → M S (Unit {0})
create_snapshot_validation name volume_id =
    if volume_id == ""
    then fail (refuse invalid_argument)
    else if name == ""
    then fail (refuse invalid_argument)
    else pure tt

-- The tests of checkDuplicateSnapshotName on the snapshots that have the name.
unfoldable pub same_name : {S : Type 0} → String → List Snapshot → M S (Option Csi.Snapshot)
unfolding build_snapshot_response
same_name volume_id [] = pure none
same_name volume_id (snap ∷ []) =
    if snap.volume_id == volume_id
    then pure (some (build_snapshot_response snap))
    else fail (refuse already_exists)
same_name volume_id (snap ∷ other ∷ rest) = fail (refuse internal)

-- A token that is no number stands for the start.
abbrev offset_or_zero : Option ℤ → ℤ
offset_or_zero none = pos 0
offset_or_zero (some n) = n

-- The options of ListSnapshots: by id alone, or a page of the available ones.
unfoldable pub list_opts : ListSnapshotsRequest → SnapshotListOpts
list_opts req =
    if req.snapshot_id == ""
    then record {
      id = "";
      name = "";
      volume_id = req.source_volume_id;
      status = "available";
      limit = req.max_entries;
      offset = offset_or_zero (atoi req.starting_token);
    }
    else record {
      id = req.snapshot_id;
      name = "";
      volume_id = "";
      status = "";
      limit = pos 0;
      offset = pos 0;
    }

-- The token of the page behind `found` snapshots from `offset`, while the count is not reached.
unfoldable pub next_offset : ℤ → ℕ → ℤ → String
next_offset offset found count =
    let current = wrap (offset +ℤ pos found) in if ltb_ℤ current count then itoa current else ""

unfoldable pub snapshot_page : SnapshotListOpts → PagedList → ListSnapshotsResponse
unfolding next_offset build_snapshot_response
snapshot_page opts page = record {
  entries = map build_snapshot_response page.snapshots;
  next_token = next_offset opts.offset (length page.snapshots) page.count;
}

module _ (C : Cloud) where
  open C use {State}

  unfoldable pub check_duplicate_snapshot_name :
      CloudCredentials → String → String → M State (Option Csi.Snapshot)
  check_duplicate_snapshot_name cc name volume_id = do
    page ← list_snapshots C cc (record {
      id = "";
      name = name;
      volume_id = "";
      status = "";
      limit = pos 0;
      offset = pos 0;
    })
    same_name volume_id page.snapshots

  -- A snapshot that has the name is returned as it is.
  unfoldable pub take_or_reuse :
      CloudCredentials → String → String → Option Csi.Snapshot → M State Csi.Snapshot
  take_or_reuse cc name volume_id (some response) = pure response
  take_or_reuse cc name volume_id none = do
    get_volume C cc volume_id
    snap ← map_error (wrapping internal) (create_snapshot_completed C cc name volume_id)
    pure (build_snapshot_response snap)

  -- CreateSnapshot of the controller.
  unfoldable pub take_snapshot : EvsDriver → String → String → M State Csi.Snapshot
  take_snapshot d name volume_id = do
    let cc = d.cloud_credentials
    map_error (wrapping internal) (create_snapshot_validation name volume_id)
    found ← map_error (wrapping internal) (check_duplicate_snapshot_name cc name volume_id)
    take_or_reuse cc name volume_id found

  abbrev deletion_error : Error → M State (Unit {0})
  deletion_error e = if is_not_found e then pure tt else fail (wrapping internal e)

  -- DeleteSnapshot of the controller: a snapshot that is missing is deleted.
  unfoldable pub remove_snapshot : EvsDriver → String → M State (Unit {0})
  unfolding is_not_found
  remove_snapshot d id =
      if id == ""
      then fail (refuse invalid_argument)
      else attempt (delete_snapshot C d.cloud_credentials id) deletion_error pure

  -- ListSnapshots of the controller.
  unfoldable pub list_snapshot_page :
      EvsDriver → ListSnapshotsRequest → M State ListSnapshotsResponse
  unfolding list_opts snapshot_page
  list_snapshot_page d req = do
    page ← list_snapshots C d.cloud_credentials (list_opts req)
    pure (snapshot_page (list_opts req) page)

-- ===== src/Evs/Tests/Others.antt =====
-- Tests of the other calls of the EVS controller and of their theorems.
use huaweicloud_csi_driver.Prelude.{
  ℕ, ◌≡◌, ◌<◌, refl, ap, arith, some, [], ◌∷◌, map, pos, ◌≤ℤ◌, true,
}
use huaweicloud_csi_driver.Status.{ok, not_found, internal}
use huaweicloud_csi_driver.Effect.{attempt, with_variable}
use huaweicloud_csi_driver.Effect.Raises.{OneOf, Raises}
use huaweicloud_csi_driver.Utils.{round_up_size}
use huaweicloud_csi_driver.Common.{wait_for_completed}
use huaweicloud_csi_driver.Common.Tests.{poll_times}
use huaweicloud_csi_driver.Config.{new_service_client, evs_v2_client, evs_v21_client, evs_v1_client}
use huaweicloud_csi_driver.Config.Access.{get_evs_v2_client, get_evs_v21_client, get_job_v1_client}
use huaweicloud_csi_driver.Csi.{CapacityRange, ExpandRequest, ExpandResponse, ListRequest}
use huaweicloud_csi_driver.Evs.Sdk.{Volume}
use huaweicloud_csi_driver.Evs.Services.Volumes.{
  get_volume, expand_volume, wait_for_job_finished, job_condition,
}
use huaweicloud_csi_driver.Evs.Controller.Snapshots.Taking.{Outcome, take_snapshot-Outcome}
use huaweicloud_csi_driver.Evs.Controller.Volumes.{controller_expand_volume, expand_in, expand_to}
use huaweicloud_csi_driver.Evs.Controller.Volumes.Expansion.{controller_expand_volume-covers}
use huaweicloud_csi_driver.Evs.Controller.Snapshots.{take_snapshot, build_snapshot_response}
use huaweicloud_csi_driver.Evs.Controller.Snapshots.Paging.{ServesPages, follow, follow_all}
use huaweicloud_csi_driver.Evs.Tests.{
  World, small_cloud, credentials, driver, data_volume, start, snapshots,
}

-- 30 GiB and a byte, rounded up to 31 GiB
abbrev range : CapacityRange
range = record { required_bytes = pos 32212254721; limit_bytes = pos 0 }

abbrev request : ExpandRequest
request = record { volume_id = "vol-1"; capacity_range = some range }

abbrev response : ExpandResponse
response = record { capacity_bytes = pos 32212254721; node_expansion_required = true }

abbrev after_expansion : World
after_expansion = record {
  volumes = record data_volume { size = pos 31 } ∷ [];
  requests = "extend" ∷ [];
}

expanded :
    controller_expand_volume small_cloud driver request start ≡ (ok response, after_expansion)
unfolding controller_expand_volume expand_in expand_to round_up_size get_volume expand_volume
    wait_for_job_finished job_condition wait_for_completed poll_times with_variable
    get_evs_v2_client get_evs_v21_client get_job_v1_client evs_v2_client evs_v21_client
    evs_v1_client new_service_client attempt
expanded = refl

sizes_of_start :
    (volume : Volume)
    → (get_volume small_cloud credentials "vol-1" start).0 ≡ ok volume
    → (size : ℕ) × (volume.size ≡ pos size) × (size < 8589934592)
unfolding get_volume get_evs_v2_client evs_v2_client new_service_client attempt
sizes_of_start volume found =
    let same : ok data_volume ≡ ok volume = found in
    let it : volume ≡ data_volume = cc same in (20, ap (λ (v : Volume). v.size) it, omega arith)

controller_expand_volume-covers_example : range.required_bytes ≤ℤ response.capacity_bytes
controller_expand_volume-covers_example =
    controller_expand_volume-covers small_cloud driver "vol-1" range response start after_expansion
      sizes_of_start expanded

extended : expand_volume small_cloud credentials "vol-1" (pos 31) start ≡ (ok tt, after_expansion)
unfolding expand_volume wait_for_job_finished job_condition wait_for_completed poll_times
    with_variable get_evs_v21_client get_job_v1_client evs_v21_client evs_v1_client
    new_service_client attempt
extended = refl

abbrev page : ListRequest
page = record { max_entries = pos 2; starting_token = "" }

take_snapshot-Outcome_example :
    Raises (OneOf (not_found ∷ internal ∷ [])) (take_snapshot small_cloud driver "daily" "vol-1")
    × Outcome small_cloud driver "daily" "vol-1"
        (take_snapshot small_cloud driver "daily" "vol-1" start)
        start
take_snapshot-Outcome_example = take_snapshot-Outcome small_cloud driver "daily" "vol-1" start

serves : ServesPages small_cloud "vol-1" snapshots
serves = record { page = λ client size offset s. refl }

follow_all_example :
    follow small_cloud driver "vol-1" 2 4 "" start ≡ some (map build_snapshot_response snapshots)
follow_all_example = follow_all small_cloud driver "vol-1" snapshots serves 1 start (omega arith)

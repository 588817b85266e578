-- ===== src/Evs/Tests/Creation.antt =====
-- Tests of the creation of volumes and of its theorems.
use huaweicloud_csi_driver.Prelude.{◌≡◌, ◌≢◌, refl, ◌⊎◌, [], ◌∷◌, pos, none}
use huaweicloud_csi_driver.Status.{ok}
use huaweicloud_csi_driver.Effect.{attempt, with_variable}
use huaweicloud_csi_driver.Prelude.{wrap}
use huaweicloud_csi_driver.Utils.{round_up_size}
use huaweicloud_csi_driver.Config.{new_service_client, evs_v2_client, evs_v21_client, evs_v1_client}
use huaweicloud_csi_driver.Config.Access.{get_evs_v2_client, get_evs_v21_client, get_job_v1_client}
use huaweicloud_csi_driver.Effect.Keeps.{Keeps}
use huaweicloud_csi_driver.Common.{wait_for_completed}
use huaweicloud_csi_driver.Common.Tests.{poll_times, instant_timer-IsTimer}
use huaweicloud_csi_driver.Csi
use huaweicloud_csi_driver.Evs.Sdk.{Volume, CreateOpts}
use huaweicloud_csi_driver.Evs.Services.Volumes.{
  create_volume_completed, check_volume_exists, list_volumes, same_name, wait_for_job_finished,
  job_condition, get_volume,
}
use huaweicloud_csi_driver.Evs.Controller.Create.{
  create_volume, create_opts, parse_metadata, create_volume_validation, requested_gb,
  create_or_reuse, create_new, check_snapshot_exists, tuning, volume_az, create_by_size,
  build_create_volume_response,
}
use huaweicloud_csi_driver.Evs.Controller.Create.Safety.{CreationKeeps, create_volume-Keeps}
use huaweicloud_csi_driver.Evs.Controller.Create.Taken.{answer_taken, create_volume-taken}
use huaweicloud_csi_driver.Evs.Controller.Create.Outcome.{Created, Reused, create_volume-Created}
use huaweicloud_csi_driver.Evs.Tests.{
  World, small_cloud, credentials, driver, data_volume, start, Never, small_cloud-QueriesKeep,
  capability, create_request,
}

-- The volume that the small cloud makes for a request.
abbrev new_volume : Volume
new_volume = record {
  id = "vol-new";
  name = "pvc-2";
  status = "available";
  size = pos 20;
  availability_zone = "cn-north-4a";
  attachments = [];
  snapshot_id = "";
  source_vol_id = "";
  hw_passthrough = "";
  wwn = "";
}

abbrev after_creation : World
after_creation = record { volumes = data_volume ∷ new_volume ∷ []; requests = "create" ∷ [] }

abbrev new_answer : Csi.Volume
new_answer = record {
  volume_id = "vol-new";
  capacity_bytes = pos 21474836480;
  accessible_topology =
      record { segments = ("topology.evs.csi.huaweicloud.com/zone", "cn-north-4a") ∷ [] } ∷ [];
  volume_context = [];
  content_source = none;
}

not_empty : (create_request "pvc-1").name ≢ ""
not_empty e = cc e

created :
    create_volume small_cloud driver (create_request "pvc-2") start
    ≡ (ok new_answer, after_creation)
unfolding create_volume create_volume_validation requested_gb round_up_size check_volume_exists
    list_volumes same_name get_evs_v2_client get_evs_v21_client get_job_v1_client evs_v2_client
    evs_v21_client evs_v1_client new_service_client create_or_reuse create_new check_snapshot_exists
    tuning create_opts volume_az parse_metadata create_by_size create_volume_completed
    wait_for_job_finished job_condition wait_for_completed poll_times with_variable attempt
    get_volume build_create_volume_response wrap
created = refl

create_volume-Created_example :
    Created small_cloud driver (create_request "pvc-2") new_answer after_creation
    ⊎ Reused small_cloud driver (create_request "pvc-2") new_answer after_creation
create_volume-Created_example =
    create_volume-Created small_cloud driver (create_request "pvc-2") new_answer start
      after_creation created

-- A second request of the name creates nothing.
listed :
    list_volumes small_cloud credentials
      (record { name = "pvc-1"; marker = ""; limit = pos 0 })
      start
    ≡ (ok (data_volume ∷ []), start)
unfolding list_volumes get_evs_v2_client evs_v2_client new_service_client attempt
listed = refl

create_volume-taken_example :
    create_volume small_cloud driver (create_request "pvc-1") start
    ≡ (answer_taken (create_request "pvc-1") data_volume [], start)
create_volume-taken_example =
    create_volume-taken small_cloud driver (create_request "pvc-1") capability [] data_volume []
      start start not_empty refl listed

-- The request to create a volume is none that deletes one.
creates_only :
    CreationKeeps small_cloud driver instant_timer-IsTimer
      (small_cloud-QueriesKeep (Never "delete"))
      (create_request "pvc-2")
creates_only client opts named sized typed = (record { at = λ w h. h }, record { at = λ w h. h })

create_volume-Keeps_example :
    Keeps (Never "delete") (create_volume small_cloud driver (create_request "pvc-2"))
create_volume-Keeps_example =
    create_volume-Keeps small_cloud driver instant_timer-IsTimer
      (small_cloud-QueriesKeep (Never "delete")) (create_request "pvc-2") creates_only

abbrev new_opts : CreateOpts
new_opts = record {
  volume = record {
    name = "pvc-2";
    size = pos 20;
    volume_type = "SSD";
    availability_zone = "cn-north-4a";
    snapshot_id = "";
    metadata = [];
    iops = pos 0;
    throughput = pos 0;
  };
  storage_id = "";
}

completed :
    create_volume_completed small_cloud credentials new_opts start ≡ (ok "vol-new", after_creation)
unfolding get_evs_v21_client get_job_v1_client evs_v21_client evs_v1_client new_service_client
    create_volume_completed wait_for_job_finished job_condition wait_for_completed poll_times
    with_variable attempt
completed = refl

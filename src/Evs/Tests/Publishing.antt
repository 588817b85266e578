-- ===== src/Evs/Tests/Publishing.antt =====
-- Tests of publishing and unpublishing and of their theorems.
use huaweicloud_csi_driver.Prelude.{◌≡◌, ◌≢◌, refl, ap, ◌∙◌, [], ◌∷◌}
use huaweicloud_csi_driver.Status.{ok}
use huaweicloud_csi_driver.Effect.{attempt}
use huaweicloud_csi_driver.Effect.Keeps.{Keeps}
use huaweicloud_csi_driver.Effect.Raises.{OneOf, Raises}
use huaweicloud_csi_driver.Common.{wait_for_completed}
use huaweicloud_csi_driver.Common.Tests.{poll_times, instant_timer-IsTimer}
use huaweicloud_csi_driver.Config.{
  ServiceClient, new_service_client, evs_v2_client, ecs_v1_client, ecs_v21_client,
}
use huaweicloud_csi_driver.Config.Access.{get_evs_v2_client, get_ecs_v1_client, get_ecs_v21_client}
use huaweicloud_csi_driver.Evs.Sdk.{Volume}
use huaweicloud_csi_driver.Evs.Services.Volumes.{get_volume}
use huaweicloud_csi_driver.Evs.Services.Computes.{
  get_server, attach_volume_completed, wait_for_ecs_job, ecs_condition,
}
use huaweicloud_csi_driver.Evs.Controller.Create.{create_volume}
use huaweicloud_csi_driver.Evs.Controller.Codes.{three_codes, publishing_codes}
use huaweicloud_csi_driver.Evs.Controller.Publish.{
  PublishContext, controller_publish_volume, controller_unpublish_volume, volume_attachment_status,
  attached_current_server, publish_validation, publish_by_status, published,
  build_publish_volume_response,
}
use huaweicloud_csi_driver.Evs.Controller.Publish.Safety.{
  controller_publish_volume-Keeps, controller_publish_volume-unavailable,
  controller_unpublish_volume-Keeps,
}
use huaweicloud_csi_driver.Evs.Controller.Publish.Classification.{
  Says, volume_attachment_status-Says,
}
use huaweicloud_csi_driver.Evs.Controller.Publish.Device.{
  Answered, controller_publish_volume-Answered,
}
use huaweicloud_csi_driver.Evs.Tests.{
  World, small_cloud, credentials, driver, start, Never, small_cloud-QueriesKeep, create_request,
  publish_request, busy_volume, busy,
}

abbrev context : PublishContext
context = ("DevicePath", "/dev/vdb") ∷ []

published_once :
    controller_publish_volume small_cloud driver publish_request start ≡ (ok context, busy)
unfolding controller_publish_volume publish_validation get_server get_volume publish_by_status
    volume_attachment_status attach_volume_completed wait_for_ecs_job ecs_condition published
    build_publish_volume_response wait_for_completed poll_times get_evs_v2_client get_ecs_v1_client
    get_ecs_v21_client evs_v2_client ecs_v1_client ecs_v21_client new_service_client attempt
published_once = refl

controller_publish_volume-Answered_example : Answered small_cloud "vol-1" "node-1" context busy
controller_publish_volume-Answered_example =
    controller_publish_volume-Answered small_cloud driver publish_request context start busy
      published_once

attaches_only :
    (client : ServiceClient) → Keeps (Never "detach") (small_cloud.attach client "node-1" "vol-1")
attaches_only client = record { at = λ w h. h }

controller_publish_volume-Keeps_example :
    Keeps (Never "detach") (controller_publish_volume small_cloud driver publish_request)
controller_publish_volume-Keeps_example =
    controller_publish_volume-Keeps small_cloud driver instant_timer-IsTimer
      (small_cloud-QueriesKeep (Never "detach")) publish_request attaches_only

-- The cloud is as `busy` has it.
abbrev IsBusy : World → Type 0
IsBusy w = w ≡ busy

busy_status :
    (w : World) (volume : Volume)
    → IsBusy w
    → (get_volume small_cloud credentials "vol-1" w).0 ≡ ok volume
    → volume.status ≢ "available"
unfolding get_volume get_evs_v2_client evs_v2_client new_service_client attempt
busy_status w volume e found available =
    let same : ok busy_volume ≡ ok volume = rw e at found in
    let it : busy_volume ≡ volume = cc same in
    let status : busy_volume.status ≡ "available" = ap (λ (v : Volume). v.status) it ∙ available in
    cc status

controller_publish_volume-unavailable_example :
    Keeps IsBusy (controller_publish_volume small_cloud driver publish_request)
controller_publish_volume-unavailable_example =
    controller_publish_volume-unavailable small_cloud driver instant_timer-IsTimer
      (small_cloud-QueriesKeep IsBusy) publish_request busy_status

detaches_only :
    (client : ServiceClient) → Keeps (Never "attach") (small_cloud.detach client "node-1" "vol-1")
detaches_only client = record { at = λ w h. h }

controller_unpublish_volume-Keeps_example :
    Keeps (Never "attach") (controller_unpublish_volume small_cloud driver "vol-1" "node-1")
controller_unpublish_volume-Keeps_example =
    controller_unpublish_volume-Keeps small_cloud driver instant_timer-IsTimer
      (small_cloud-QueriesKeep (Never "attach")) "vol-1" "node-1" detaches_only

volume_attachment_status-Says_example :
    (volume_attachment_status busy_volume "node-1" ≡ attached_current_server
      → Says busy_volume "node-1" attached_current_server)
    × (Says busy_volume "node-1" attached_current_server
        → volume_attachment_status busy_volume "node-1" ≡ attached_current_server)
volume_attachment_status-Says_example =
    volume_attachment_status-Says busy_volume "node-1" attached_current_server

publishing_codes_example :
    Raises (OneOf three_codes) (create_volume small_cloud driver (create_request "pvc-1"))
    × Raises (OneOf three_codes) (controller_publish_volume small_cloud driver publish_request)
    × Raises (OneOf three_codes) (controller_unpublish_volume small_cloud driver "vol-1" "node-1")
publishing_codes_example =
    publishing_codes small_cloud driver (create_request "pvc-1") publish_request "vol-1" "node-1"

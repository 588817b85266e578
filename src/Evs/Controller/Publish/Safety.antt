-- ===== src/Evs/Controller/Publish/Safety.antt =====
-- Which requests ControllerPublishVolume and ControllerUnpublishVolume can send. A property of the
-- cloud is a predicate on its states that the queries keep.
use huaweicloud_csi_driver.Prelude.{◌≡◌, ◌≢◌, refl, eq_iff, String, Option, none, some, arith}
use huaweicloud_csi_driver.Status.{ok}
use huaweicloud_csi_driver.Effect.Keeps.{
  Keeps, keeps_rules, Keeps-attempt, Keeps-attempt_result, Keeps-fail,
}
use huaweicloud_csi_driver.Common.{IsTimer}
use huaweicloud_csi_driver.Config.{ServiceClient}
use huaweicloud_csi_driver.Evs.Sdk.{Cloud, Volume}
use huaweicloud_csi_driver.Evs.Driver.{EvsDriver}
use huaweicloud_csi_driver.Csi.{VolumeCapability, PublishRequest}
use huaweicloud_csi_driver.Evs.Services.Effects.{
  QueriesKeep, get_volume-Keeps, get_server-Keeps, wait_for_volume_attaching-Keeps,
  attach_volume_completed-Keeps, detach_volume_completed-Keeps,
}
use huaweicloud_csi_driver.Evs.Services.Volumes.{get_volume}
use huaweicloud_csi_driver.Evs.Controller.Publish.{
  VolumeAttachmentStatus, not_attached, attaching_current_server, volume_attachment_status,
  publish_validation, published, publish_by_status, controller_publish_volume, unpublish_validation,
  detach_error, controller_unpublish_volume,
}

not_attached_status :
    (volume : Volume) (node_id : String)
    → volume.status ≢ "available"
    → volume_attachment_status volume node_id ≢ not_attached
unfolding volume_attachment_status
not_attached_status volume node_id h = ground (arith, eq_iff volume.status "available")

module _ (C : Cloud) (d : EvsDriver) (lawful : IsTimer C.timer) {P : C.State → Type 0}
    (queries : QueriesKeep C P) where
  publish_validation-Keeps :
      (volume_id node_id : String) (capability : Option VolumeCapability)
      → Keeps P (publish_validation C d.cloud_credentials volume_id node_id capability)
  unfolding publish_validation
  publish_validation-Keeps volume_id node_id none = search keeps_rules
  publish_validation-Keeps volume_id node_id (some capability) =
      search (keeps_rules, get_server-Keeps C d.cloud_credentials lawful queries)

  published-Keeps :
      (volume_id node_id : String) → Keeps P (published C d.cloud_credentials volume_id node_id)
  unfolding published
  published-Keeps volume_id node_id =
      search (keeps_rules, get_volume-Keeps C d.cloud_credentials lawful queries)

  -- Every case of the switch but the first sends no request.
  other_status-Keeps :
      (volume : Volume) (volume_id node_id : String) (status : VolumeAttachmentStatus)
      → status ≢ not_attached
      → Keeps P (publish_by_status C d.cloud_credentials volume volume_id node_id status)
  unfolding publish_by_status
  other_status-Keeps volume volume_id node_id not_attached h = absurd (h refl)
  other_status-Keeps volume volume_id node_id attaching_current_server h = search (
    keeps_rules,
    wait_for_volume_attaching-Keeps C d.cloud_credentials lawful queries,
    published-Keeps,
  )
  other_status-Keeps volume volume_id node_id _ h = search keeps_rules

  publish_by_status-Keeps :
      (volume : Volume) (volume_id node_id : String) (status : VolumeAttachmentStatus)
      → ((client : ServiceClient) → Keeps P (C.attach client node_id volume_id))
      → Keeps P (publish_by_status C d.cloud_credentials volume volume_id node_id status)
  unfolding publish_by_status
  publish_by_status-Keeps volume volume_id node_id not_attached h = search (
    keeps_rules,
    attach_volume_completed-Keeps C d.cloud_credentials lawful queries,
    h,
    published-Keeps,
  )
  publish_by_status-Keeps volume volume_id node_id status h =
      other_status-Keeps volume volume_id node_id status (λ e. cc e)

  -- ControllerPublishVolume changes nothing but by the request that attaches the volume of its
  -- request to the node of its request: what the queries and that one request keep, it keeps.
  pub controller_publish_volume-Keeps :
      (req : PublishRequest)
      → ((client : ServiceClient) → Keeps P (C.attach client req.node_id req.volume_id))
      → Keeps P (controller_publish_volume C d req)
  unfolding controller_publish_volume
  controller_publish_volume-Keeps req h = search (
    keeps_rules,
    publish_validation-Keeps,
    get_volume-Keeps C d.cloud_credentials lawful queries,
    publish_by_status-Keeps,
    h,
  )

  -- As long as every query of the volume reports another status than available,
  -- ControllerPublishVolume sends no request that changes anything: a volume that is in use or being
  -- attached is never attached once more.
  pub controller_publish_volume-unavailable :
      (req : PublishRequest)
      → ((s : C.State) (volume : Volume)
          → P s
          → (get_volume C d.cloud_credentials req.volume_id s).0 ≡ ok volume
          → volume.status ≢ "available")
      → Keeps P (controller_publish_volume C d req)
  unfolding controller_publish_volume
  controller_publish_volume-unavailable req busy =
      Keeps-attempt _ _ _ (publish_validation-Keeps req.volume_id req.node_id req.volume_capability)
        (λ e. Keeps-fail e)
        (λ _.
          Keeps-attempt_result _ _ _
            (get_volume-Keeps C d.cloud_credentials lawful queries req.volume_id)
            (λ e. Keeps-fail e)
            (λ volume s p found.
              other_status-Keeps volume req.volume_id req.node_id _
                (not_attached_status volume req.node_id (busy s volume p found))))

  unpublish_validation-Keeps :
      (volume_id node_id : String)
      → Keeps P (unpublish_validation C d.cloud_credentials volume_id node_id)
  unfolding unpublish_validation
  unpublish_validation-Keeps volume_id node_id = search (
    keeps_rules,
    get_volume-Keeps C d.cloud_credentials lawful queries,
    get_server-Keeps C d.cloud_credentials lawful queries,
  )

  -- ControllerUnpublishVolume changes nothing but by the request that detaches the volume that it is
  -- given from the node that it is given: what the queries and that one request keep, it keeps.
  pub controller_unpublish_volume-Keeps :
      (volume_id node_id : String)
      → ((client : ServiceClient) → Keeps P (C.detach client node_id volume_id))
      → Keeps P (controller_unpublish_volume C d volume_id node_id)
  unfolding controller_unpublish_volume detach_error
  controller_unpublish_volume-Keeps volume_id node_id h = search (
    keeps_rules,
    unpublish_validation-Keeps,
    detach_volume_completed-Keeps C d.cloud_credentials lawful queries,
    h,
  )

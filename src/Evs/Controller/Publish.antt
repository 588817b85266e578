-- ===== src/Evs/Controller/Publish.antt =====
-- ControllerPublishVolume and ControllerUnpublishVolume of pkg/evs/controllerserver.go.
pub mod Safety
pub mod Classification
pub mod Device
use huaweicloud_csi_driver.Prelude.{
  String, ◌==◌, Bool, true, false, ◌&&◌, ◌||◌, not, Option, none, some, List, [], ◌∷◌,
  if◌then◌else◌, contains,
}
use huaweicloud_csi_driver.Status.{Error, wrapping, refuse, text, internal, invalid_argument}
use huaweicloud_csi_driver.Effect.{M, pure, fail, attempt, ◌>>=◌, ◌>>◌, map_error}
use huaweicloud_csi_driver.Config.{CloudCredentials}
use huaweicloud_csi_driver.Csi.{VolumeCapability, PublishRequest}
use huaweicloud_csi_driver.Evs.Sdk.{Cloud, Attachment, Volume}
use huaweicloud_csi_driver.Evs.Driver.{EvsDriver}
use huaweicloud_csi_driver.Evs.Services.Volumes.{get_volume}
use huaweicloud_csi_driver.Evs.Services.Computes.{
  get_server, attach_volume_completed, wait_for_volume_attaching, detach_volume_completed,
}

pub data VolumeAttachmentStatus : Type 0 where
  not_attached attaching_current_server attaching_other_server : VolumeAttachmentStatus
  attached_current_server attached_other_server attach_error : VolumeAttachmentStatus

-- The loop that looks for the server among the attachments.
unfoldable pub attached_to : String → List Attachment → Bool
attached_to instance_id [] = false
attached_to instance_id (v ∷ rest) = v.server_id == instance_id || attached_to instance_id rest

unfoldable pub volume_attachment_status : Volume → String → VolumeAttachmentStatus
volume_attachment_status volume instance_id =
    let attachment = attached_to instance_id volume.attachments in
    if volume.status == "available"
    then not_attached
    else if volume.status == "attaching" && attachment
    then attaching_current_server
    else if volume.status == "attaching" && not attachment
    then attaching_other_server
    else if volume.status == "in-use" && attachment
    then attached_current_server
    else if volume.status == "in-use" && not attachment
    then attached_other_server
    else attach_error

-- The device of the first attachment to the server, and the empty text where there is none: the
-- "DevicePath" of the publish context.
unfoldable pub device_path : String → List Attachment → String
device_path instance_id [] = ""
device_path instance_id (attach ∷ rest) =
    if attach.server_id == instance_id then attach.device else device_path instance_id rest

-- buildPublishVolumeResponse
unfoldable pub build_publish_volume_response : Volume → String → List (String × String)
unfolding device_path
build_publish_volume_response volume instance_id =
    ("DevicePath", device_path instance_id volume.attachments) ∷ []

abbrev pub PublishContext : Type 0
PublishContext = List (String × String)

module _ (C : Cloud) where
  open C use {State}

  unfoldable pub publish_validation :
      CloudCredentials → String → String → Option VolumeCapability → M State (Unit {0})
  publish_validation cc volume_id instance_id capability =
      if volume_id == ""
      then fail (refuse invalid_argument)
      else if instance_id == ""
      then fail (refuse invalid_argument)
      else elim capability [
        | none ↦ fail (refuse invalid_argument)
        | some _ ↦ get_server C cc instance_id
      ]

  -- The end of ControllerPublishVolume, after the volume was attached.
  unfoldable pub published : CloudCredentials → String → String → M State PublishContext
  published cc volume_id instance_id = do
    volume ← get_volume C cc volume_id
    pure (build_publish_volume_response volume instance_id)

  -- The cases of the switch.
  unfoldable pub publish_by_status :
      CloudCredentials → Volume → String → String → VolumeAttachmentStatus → M State PublishContext
  publish_by_status cc volume volume_id instance_id not_attached = do
    map_error (wrapping internal) (attach_volume_completed C cc instance_id volume_id)
    published cc volume_id instance_id
  publish_by_status cc volume volume_id instance_id attaching_current_server = do
    map_error (wrapping internal) (wait_for_volume_attaching C cc volume_id)
    published cc volume_id instance_id
  publish_by_status cc volume volume_id instance_id attaching_other_server = fail (refuse internal)
  publish_by_status cc volume volume_id instance_id attached_current_server =
      pure (build_publish_volume_response volume instance_id)
  publish_by_status cc volume volume_id instance_id attached_other_server = fail (refuse internal)
  publish_by_status cc volume volume_id instance_id attach_error = fail (refuse internal)

  unfoldable pub controller_publish_volume : EvsDriver → PublishRequest → M State PublishContext
  controller_publish_volume d req = do
    let cc = d.cloud_credentials
    publish_validation cc req.volume_id req.node_id req.volume_capability
    volume ← get_volume C cc req.volume_id
    publish_by_status cc volume req.volume_id req.node_id
        (volume_attachment_status volume req.node_id)

  unfoldable pub unpublish_validation : CloudCredentials → String → String → M State Volume
  unpublish_validation cc volume_id instance_id =
      if volume_id == ""
      then fail (refuse invalid_argument)
      else if instance_id == ""
      then fail (refuse invalid_argument)
      else (do volume ← get_volume C cc volume_id; get_server C cc instance_id; pure volume)

  abbrev pub no_attachments : List Attachment → Bool
  no_attachments [] = true
  no_attachments (_ ∷ _) = false

  unfoldable pub is_detached : Volume → Bool
  is_detached volume = volume.status == "available" || no_attachments volume.attachments

  -- An error that names Ecs.0111 says that the volume is not in the server's list.
  unfoldable pub detach_error : Error → M State (Unit {0})
  detach_error e = if contains (text e) "Ecs.0111" then pure tt else fail (wrapping internal e)

  unfoldable pub controller_unpublish_volume : EvsDriver → String → String → M State (Unit {0})
  controller_unpublish_volume d volume_id instance_id = do
    let cc = d.cloud_credentials
    volume ← unpublish_validation cc volume_id instance_id
    if is_detached volume
        then pure tt
        else attempt (detach_volume_completed C cc instance_id volume_id) detach_error pure

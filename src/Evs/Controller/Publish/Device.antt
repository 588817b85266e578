-- ===== src/Evs/Controller/Publish/Device.antt =====
-- The device that ControllerPublishVolume of pkg/evs/controllerserver.go answers.
use mathlib.Core.List.{Memᴰ}
use mathlib.Core.List.Memᴰ
use huaweicloud_csi_driver.Prelude.{
  ◌≡◌, refl, sym, ap, ◌∙◌, eq_iff, ◌==◌, ◌⊎◌, inl, inr, String, Bool, true, false, List, [], ◌∷◌,
  if◌then◌else◌,
}
use huaweicloud_csi_driver.Status.{Result, ok}
use huaweicloud_csi_driver.Effect.{pure}
use huaweicloud_csi_driver.Effect.Returns.{Returns-bind, Returns-map_error, Returns-pure}
use huaweicloud_csi_driver.Config.{CloudCredentials, ServiceClient}
use huaweicloud_csi_driver.Csi.{PublishRequest}
use huaweicloud_csi_driver.Evs.Sdk.{Cloud, Attachment, Volume}
use huaweicloud_csi_driver.Evs.Driver.{EvsDriver}
use huaweicloud_csi_driver.Evs.Services.Volumes.{get_volume, query_error}
use huaweicloud_csi_driver.Evs.Controller.Publish.{
  VolumeAttachmentStatus, not_attached, attaching_current_server, attached_current_server,
  volume_attachment_status, device_path, build_publish_volume_response, PublishContext, published,
  publish_by_status, controller_publish_volume,
}
use huaweicloud_csi_driver.Evs.Controller.Publish.Classification.{AttachedTo, differs}

-- The device answered for a server: that of an attachment to it, or none where there is none.
abbrev pub DeviceOf : String → List Attachment → String → Type 0
DeviceOf id attachments device =
    ((a : Attachment) × Memᴰ a attachments × (a.server_id ≡ id) × (a.device ≡ device))
    ⊎ ((device ≡ "") × ¬ AttachedTo id attachments)

device_path-DeviceOf : (id : String) (l : List Attachment) → DeviceOf id l (device_path id l)
unfolding device_path
device_path-DeviceOf id [] = inr (refl, λ (a, m, e). Memᴰ.not-nil m)
device_path-DeviceOf id (a ∷ rest) = go (a.server_id == id) refl (device_path-DeviceOf id rest)
  where
    go :
        (b : Bool)
        → (a.server_id == id) ≡ b
        → DeviceOf id rest (device_path id rest)
        → DeviceOf id (a ∷ rest) (if b then a.device else device_path id rest)
    go true e r = inl (a, Memᴰ.head refl, (eq_iff a.server_id id).0 e, refl)
    go false e (inl (w, m, f, p)) = inl (w, Memᴰ.tail m, f, p)
    go false e (inr (none_found, never)) = inr (
      none_found,
      λ (w, m, f). elim (Memᴰ.cases_cons m) [
        | inl p ↦ differs a.server_id id e (ap (λ (x : Attachment). x.server_id) (sym p) ∙ f)
        | inr m' ↦ never (w, m', f)
      ],
    )

-- The last query of the volume led to the state `s'`, and the context names the device that the
-- volume then had at the server.
abbrev pub Answered : (C : Cloud) → String → String → PublishContext → C.State → Type 0
Answered C volume_id node_id context s' =
    (client : ServiceClient) × (s : C.State) × (volume : Volume) × (device : String)
    × (C.volumes_get client volume_id s ≡ (ok volume, s'))
    × (context ≡ ("DevicePath", device) ∷ [])
    × DeviceOf node_id volume.attachments device

module _ (C : Cloud) (credentials : CloudCredentials) where
  get_volume-Returns :
      (id : String) (s s' : C.State) (volume : Volume)
      → get_volume C credentials id s ≡ (ok volume, s')
      → (client : ServiceClient) × (s₀ : C.State) × (C.volumes_get client id s₀ ≡ (ok volume, s'))
  unfolding get_volume
  get_volume-Returns id s s' volume h =
      let (client, s₁, got, asked) = Returns-bind _ _ s volume s' h in
      (client, s₁, Returns-map_error query_error (C.volumes_get client id) s₁ volume s' asked)

  response-Answered :
      (volume_id node_id : String) (volume : Volume) (context : PublishContext) (s s₁ s' : C.State)
      → get_volume C credentials volume_id s ≡ (ok volume, s₁)
      → pure (build_publish_volume_response volume node_id) s₁ ≡ (ok context, s')
      → Answered C volume_id node_id context s'
  unfolding build_publish_volume_response
  response-Answered volume_id node_id volume context s s₁ s' found given =
      let (same, kept) =
        Returns-pure (build_publish_volume_response volume node_id) context s₁ s' given in
      let (client, s₀, asked) = get_volume-Returns volume_id s s₁ volume found in
      (
        client,
        s₀,
        volume,
        device_path node_id volume.attachments,
        rw kept at asked,
        sym same,
        device_path-DeviceOf node_id volume.attachments,
      )

  published-Answered :
      (volume_id node_id : String) (context : PublishContext) (s s' : C.State)
      → published C credentials volume_id node_id s ≡ (ok context, s')
      → Answered C volume_id node_id context s'
  unfolding published
  published-Answered volume_id node_id context s s' h =
      let (volume, s₁, found, given) =
        Returns-bind (get_volume C credentials volume_id) _ s context s' h in
      response-Answered volume_id node_id volume context s s₁ s' found given

  publish_by_status-Answered :
      (volume : Volume) (volume_id node_id : String) (status : VolumeAttachmentStatus)
      (context : PublishContext) (s s₁ s' : C.State)
      → get_volume C credentials volume_id s ≡ (ok volume, s₁)
      → publish_by_status C credentials volume volume_id node_id status s₁ ≡ (ok context, s')
      → Answered C volume_id node_id context s'
  unfolding publish_by_status
  publish_by_status-Answered volume volume_id node_id not_attached context s s₁ s' found h =
      let (_, s₂, attached, rest) = Returns-bind _ _ s₁ context s' h in
      published-Answered volume_id node_id context s₂ s' rest
  publish_by_status-Answered volume volume_id node_id attaching_current_server context s s₁ s' found
        h =
      let (_, s₂, waited, rest) = Returns-bind _ _ s₁ context s' h in
      published-Answered volume_id node_id context s₂ s' rest
  publish_by_status-Answered volume volume_id node_id attached_current_server context s s₁ s' found
        h =
      response-Answered volume_id node_id volume context s s₁ s' found h
  publish_by_status-Answered volume volume_id node_id _ context s s₁ s' found h =
      absurd (cc (ap (λ (q : Result PublishContext × C.State). q.0) h))

-- Where ControllerPublishVolume returns a context, the context has the device at the node of the
-- attachments that the last query of the volume reported, and an empty device where there was none.
pub controller_publish_volume-Answered :
    (C : Cloud) (d : EvsDriver) (req : PublishRequest) (context : PublishContext) (s s' : C.State)
    → controller_publish_volume C d req s ≡ (ok context, s')
    → Answered C req.volume_id req.node_id context s'
unfolding controller_publish_volume
controller_publish_volume-Answered C d req context s s' h =
    let (_, s₁, valid, rest) = Returns-bind _ _ s context s' h in
    let (volume, s₂, found, chosen) =
      Returns-bind (get_volume C d.cloud_credentials req.volume_id) _ s₁ context s' rest in
    publish_by_status-Answered C d.cloud_credentials volume req.volume_id req.node_id
      (volume_attachment_status volume req.node_id) context s₁ s₂ s' found chosen

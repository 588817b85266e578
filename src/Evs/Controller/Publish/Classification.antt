-- ===== src/Evs/Controller/Publish/Classification.antt =====
-- What the status of an attachment says of the volume: volumeAttachmentStatus of
-- pkg/evs/controllerserver.go.
use mathlib.Core.List.{Memᴰ}
use mathlib.Core.List.Memᴰ
use mathlib.Core.Path.{subst}
use huaweicloud_csi_driver.Prelude.{
  ◌≡◌, ◌≢◌, refl, sym, ap, ◌∙◌, eq_iff, ◌==◌, ◌⊎◌, inl, inr, String, Bool, true, false, ◌||◌, List,
  [], ◌∷◌, Bool-cases,
}
use huaweicloud_csi_driver.Evs.Sdk.{Attachment, Volume}
use huaweicloud_csi_driver.Evs.Controller.Publish.{
  VolumeAttachmentStatus, not_attached, attaching_current_server, attaching_other_server,
  attached_current_server, attached_other_server, attach_error, attached_to,
  volume_attachment_status,
}

-- One of the attachments is to the server.
abbrev pub AttachedTo : String → List Attachment → Type 0
AttachedTo id attachments = (a : Attachment) × Memᴰ a attachments × (a.server_id ≡ id)

-- What each status says. The six cases exclude each other.
abbrev pub Says : Volume → String → VolumeAttachmentStatus → Type 0
Says v id not_attached = v.status ≡ "available"
Says v id attaching_current_server = (v.status ≡ "attaching") × AttachedTo id v.attachments
Says v id attaching_other_server = (v.status ≡ "attaching") × ¬ AttachedTo id v.attachments
Says v id attached_current_server = (v.status ≡ "in-use") × AttachedTo id v.attachments
Says v id attached_other_server = (v.status ≡ "in-use") × ¬ AttachedTo id v.attachments
Says v id attach_error = (v.status ≢ "available") × (v.status ≢ "attaching") × (v.status ≢ "in-use")

pub differs : (a b : String) → (a == b) ≡ false → a ≢ b
differs a b h e = let same = (eq_iff a b).1 e in cc (h, same)

attached_to-found :
    (id : String) (l : List Attachment)
    → ((attached_to id l ≡ true) × AttachedTo id l)
      ⊎ ((attached_to id l ≡ false) × ¬ AttachedTo id l)
unfolding attached_to
attached_to-found id [] = inr (refl, λ (a, m, e). Memᴰ.not-nil m)
attached_to-found id (a ∷ rest) = go (a.server_id == id) refl (attached_to-found id rest)
  where
    go :
        (b : Bool)
        → (a.server_id == id) ≡ b
        → ((attached_to id rest ≡ true) × AttachedTo id rest)
          ⊎ ((attached_to id rest ≡ false) × ¬ AttachedTo id rest)
        → (((b || attached_to id rest) ≡ true) × AttachedTo id (a ∷ rest))
          ⊎ (((b || attached_to id rest) ≡ false) × ¬ AttachedTo id (a ∷ rest))
    go true e r = inl (refl, (a, Memᴰ.head refl, (eq_iff a.server_id id).0 e))
    go false e (inl (t, (w, m, f))) = inl (t, (w, Memᴰ.tail m, f))
    go false e (inr (t, never)) = inr (
      t,
      λ (w, m, f). elim (Memᴰ.cases_cons m) [
        | inl p ↦
            let q = (eq_iff a.server_id id).1 (ap (λ (x : Attachment). x.server_id) (sym p) ∙ f) in
            cc (e, q)
        | inr m' ↦ never (w, m', f)
      ],
    )

attached_to-true : (id : String) (l : List Attachment) → AttachedTo id l → attached_to id l ≡ true
attached_to-true id l h = elim (attached_to-found id l) [
  | inl (t, _) ↦ t
  | inr (_, never) ↦ absurd (never h)
]

attached_to-false :
    (id : String) (l : List Attachment) → ¬ AttachedTo id l → attached_to id l ≡ false
attached_to-false id l h = elim (attached_to-found id l) [
  | inl (_, found) ↦ absurd (h found)
  | inr (t, _) ↦ t
]

not_equal : (a b : String) → a ≢ b → (a == b) ≡ false
not_equal a b h = elim (Bool-cases (a == b)) [ inl t ↦ absurd (h ((eq_iff a b).0 t)) | inr f ↦ f ]

Says-status :
    (v : Volume) (id : String) (s : VolumeAttachmentStatus)
    → Says v id s
    → volume_attachment_status v id ≡ s
unfolding volume_attachment_status
Says-status v id not_attached e = rw e refl
Says-status v id attaching_current_server (e, h) = rw (e, attached_to-true id v.attachments h) refl
Says-status v id attaching_other_server (e, h) = rw (e, attached_to-false id v.attachments h) refl
Says-status v id attached_current_server (e, h) = rw (e, attached_to-true id v.attachments h) refl
Says-status v id attached_other_server (e, h) = rw (e, attached_to-false id v.attachments h) refl
Says-status v id attach_error (e₁, e₂, e₃) =
    rw (not_equal v.status _ e₁, not_equal v.status _ e₂, not_equal v.status _ e₃) refl

-- Some status always holds.
some_status : (v : Volume) (id : String) → (s : VolumeAttachmentStatus) × Says v id s
some_status v id =
    go (Bool-cases (v.status == "available")) (Bool-cases (v.status == "attaching"))
      (Bool-cases (v.status == "in-use")) (attached_to-found id v.attachments)
  where
    go :
        let is : String → Type 0 =
          λ text. ((v.status == text) ≡ true) ⊎ ((v.status == text) ≡ false) in
        is "available"
        → is "attaching"
        → is "in-use"
        → ((attached_to id v.attachments ≡ true) × AttachedTo id v.attachments)
          ⊎ ((attached_to id v.attachments ≡ false) × ¬ AttachedTo id v.attachments)
        → (s : VolumeAttachmentStatus) × Says v id s
    go (inl e) _ _ _ = (not_attached, (eq_iff v.status "available").0 e)
    go (inr _) (inl e) _ (inl (_, h)) =
        (attaching_current_server, ((eq_iff v.status "attaching").0 e, h))
    go (inr _) (inl e) _ (inr (_, h)) =
        (attaching_other_server, ((eq_iff v.status "attaching").0 e, h))
    go (inr _) (inr _) (inl e) (inl (_, h)) =
        (attached_current_server, ((eq_iff v.status "in-use").0 e, h))
    go (inr _) (inr _) (inl e) (inr (_, h)) =
        (attached_other_server, ((eq_iff v.status "in-use").0 e, h))
    go (inr e₁) (inr e₂) (inr e₃) _ =
        (attach_error, (differs v.status _ e₁, differs v.status _ e₂, differs v.status _ e₃))

-- volumeAttachmentStatus answers a status exactly if what it says of the volume and the server holds.
pub volume_attachment_status-Says :
    (v : Volume) (id : String) (s : VolumeAttachmentStatus)
    → (volume_attachment_status v id ≡ s → Says v id s)
      × (Says v id s → volume_attachment_status v id ≡ s)
volume_attachment_status-Says v id s =
    let (s₀, holds) = some_status v id in
    (λ e. subst (Says v id) (sym (Says-status v id s₀ holds) ∙ e) holds, Says-status v id s)

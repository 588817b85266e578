-- ===== src/Obs/Controller/Validation.antt =====
-- ValidateVolumeCapabilities of pkg/obs/controllerserver.go.
use huaweicloud_csi_driver.Prelude.{
  ◌≡◌, refl, inl, inr, ◌==◌, String, Bool, true, false, Bool-cases, none, some, List, [], ◌∷◌, All,
  if◌then◌else◌,
}
use huaweicloud_csi_driver.Status.{ok, refuse, invalid_argument}
use huaweicloud_csi_driver.Effect.Returns.{Returns-bind, Returns-pure, Returns-guard}
use huaweicloud_csi_driver.Config.{CloudCredentials}
use huaweicloud_csi_driver.Csi.{
  mode_unknown, same_mode, get_mode, access_unset, VolumeCapability, ValidateResponse,
}
use huaweicloud_csi_driver.Obs.Sdk.{ObsCloud}
use huaweicloud_csi_driver.Obs.Driver.{new_obs_driver}
use huaweicloud_csi_driver.Obs.Services.Buckets.{get_parallel_fs_bucket}
use huaweicloud_csi_driver.Obs.Controller.{every_mode, validated, validate_obs}

-- Whether every capability leaves its mode out, or names it UNKNOWN.
abbrev pub NamesNoMode : List VolumeCapability → Type 0
NamesNoMode capabilities =
    All (λ (c : VolumeCapability). same_mode (get_mode c) mode_unknown ≡ true) capabilities

every_mode-NamesNoMode :
    (capabilities : List VolumeCapability)
    → every_mode mode_unknown capabilities ≡ true
    → NamesNoMode capabilities
unfolding every_mode
every_mode-NamesNoMode [] h = tt
every_mode-NamesNoMode (c ∷ rest) h = elim (Bool-cases (same_mode (get_mode c) mode_unknown)) [
  | inl same ↦ (same, every_mode-NamesNoMode rest (rw same at h))
  | inr other ↦ absurd (cc (rw other at h))
]

-- The answer, for the mode that the driver compares with.
abbrev answer_for : Bool → ValidateResponse
answer_for b =
    if b
    then record {
      confirmed =
          some (record { access_mode = some mode_unknown; access_type = access_unset } ∷ []);
      message = "";
    }
    else record { confirmed = none; message = "Requested volume capability not supported" }

answer_for-confirmed :
    (b : Bool) (answer : ValidateResponse) (confirmed : List VolumeCapability)
    → answer_for b ≡ answer
    → answer.confirmed ≡ some confirmed
    → b ≡ true
answer_for-confirmed true answer confirmed same given = refl
answer_for-confirmed false answer confirmed same given = absurd (cc)

-- With a driver that NewDriver made, ValidateVolumeCapabilities confirms a request only if every capability
-- of it leaves its access mode out or names UNKNOWN: a request for any other mode is never confirmed.
pub validate_obs-NamesNoMode :
    (C : ObsCloud) (endpoint : String) (cloud : CloudCredentials) (volume_id : String)
    (capabilities confirmed : List VolumeCapability) (answer : ValidateResponse) (s s' : C.State)
    → validate_obs C (new_obs_driver endpoint cloud) volume_id capabilities s ≡ (ok answer, s')
    → answer.confirmed ≡ some confirmed
    → NamesNoMode capabilities
unfolding validate_obs new_obs_driver validated
validate_obs-NamesNoMode C endpoint cloud volume_id [] confirmed answer s s' h given = tt
validate_obs-NamesNoMode C endpoint cloud volume_id (c ∷ rest) confirmed answer s s' h given =
    let (_, h₁) = Returns-guard (volume_id == "") (refuse invalid_argument) _ s answer s' h in
    let (_, s₁, _, h₂) = Returns-bind (get_parallel_fs_bucket C cloud volume_id) _ s answer s' h₁ in
    let (same, _) =
      Returns-pure (answer_for (every_mode mode_unknown (c ∷ rest))) answer s₁ s' h₂ in
    every_mode-NamesNoMode (c ∷ rest)
      (answer_for-confirmed (every_mode mode_unknown (c ∷ rest)) answer confirmed same given)

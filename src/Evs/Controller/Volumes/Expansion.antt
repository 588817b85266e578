-- ===== src/Evs/Controller/Volumes/Expansion.antt =====
-- What ControllerExpandVolume of pkg/evs/controllerserver.go answers, and what it then knows.
use huaweicloud_csi_driver.Prelude.{
  ℕ, ◌*◌, ◌<◌, ◌≡◌, sym, ap, ◌∙◌, arith, ◌==◌, ◌⊎◌, inl, inr, String, true, false, ◌&&◌, some, ℤ,
  pos, negsuc, ltb_ℤ, leb_ℤ, ◌≤ℤ◌, wrap_lem,
}
use huaweicloud_csi_driver.Status.{
  Result, ok, refuse, wrapping, internal, invalid_argument, out_of_range,
}
use huaweicloud_csi_driver.Effect.{pure, ◌>>=◌, map_error}
use huaweicloud_csi_driver.Effect.Returns.{
  Returns-bind, Returns-map_error, Returns-pure, Returns-guard, Returns-if,
}
use huaweicloud_csi_driver.Utils.{round_up_size, gb_byte_size, gb_to_bytes}
use huaweicloud_csi_driver.Utils.Rounding.{round_up_size-least}
use huaweicloud_csi_driver.Csi.{CapacityRange, ExpandResponse}
use huaweicloud_csi_driver.Evs.Sdk.{Cloud, Volume}
use huaweicloud_csi_driver.Evs.Driver.{EvsDriver}
use huaweicloud_csi_driver.Evs.Services.Volumes.{get_volume, expand_volume}
use huaweicloud_csi_driver.Evs.Controller.Volumes.{expand_to, expand_in, controller_expand_volume}

abbrev answer : ℤ → ExpandResponse
answer bytes = record { capacity_bytes = bytes; node_expansion_required = true }

abbrev asked : CapacityRange → ℤ
asked range = round_up_size range.required_bytes gb_byte_size

-- A volume that is not below the required bytes rounded up holds them.
covers :
    (required : ℤ) (size : ℕ)
    → size < 8589934592
    → leb_ℤ (round_up_size required gb_byte_size) (pos size) ≡ true
    → required ≤ℤ gb_to_bytes (pos size)
unfolding gb_to_bytes
covers (pos n) size small h =
    let (units, rounded, holds, _) = round_up_size-least n in
    let enough = rw rounded at h in
    rw (wrap_lem (pos (size * gb_byte_size)) (omega arith, omega arith)) (ground arith)
covers (negsuc n) size small h =
    rw (wrap_lem (pos (size * gb_byte_size)) (omega arith, omega arith)) (ground arith)

module _ (C : Cloud) (d : EvsDriver) where
  -- Either the volume was large enough, and its own size is answered, or it was smaller, the expansion
  -- to the size asked for succeeded, and the required bytes are answered.
  abbrev pub Expanded : String → CapacityRange → ExpandResponse → C.State → C.State → Type 0
  Expanded volume_id range response s s' =
      (volume : Volume) × (s₁ : C.State) × (get_volume C d.cloud_credentials volume_id s
        ≡ (ok volume, s₁))
      × (((leb_ℤ (asked range) volume.size ≡ true)
            × (response ≡ answer (gb_to_bytes volume.size))
            × (s₁ ≡ s'))
          ⊎ ((leb_ℤ (asked range) volume.size ≡ false)
              × (response ≡ answer range.required_bytes)
              × (expand_volume C d.cloud_credentials volume_id (asked range) s₁ ≡ (ok tt, s'))))

  enlarged :
      (volume_id : String) (range : CapacityRange) (response : ExpandResponse) (s s' : C.State)
      → (map_error (wrapping internal) (expand_volume C d.cloud_credentials volume_id (asked range))
            >>= λ _. pure (answer range.required_bytes))
          s
        ≡ (ok response, s')
      → (response ≡ answer range.required_bytes)
        × (expand_volume C d.cloud_credentials volume_id (asked range) s ≡ (ok tt, s'))
  enlarged volume_id range response s s' h =
      let (_, s₁, sent, given) = Returns-bind _ _ s response s' h in
      let (same, kept) = Returns-pure (answer range.required_bytes) response s₁ s' given in
      (
        sym same,
        Returns-map_error (wrapping internal)
              (expand_volume C d.cloud_credentials volume_id (asked range)) s tt s₁ sent
            ∙ ap (λ u. (ok tt, u)) kept,
      )

  -- Where ControllerExpandVolume answers, the volume was found, and either it was large enough or it was
  -- enlarged to the required bytes rounded up.
  pub controller_expand_volume-Expanded :
      (volume_id : String) (range : CapacityRange) (response : ExpandResponse) (s s' : C.State)
      → controller_expand_volume C d
          (record { volume_id = volume_id; capacity_range = some range })
          s
        ≡ (ok response, s')
      → Expanded volume_id range response s s'
  unfolding controller_expand_volume expand_in expand_to
  controller_expand_volume-Expanded volume_id range response s s' h =
      let (named, h₁) =
        Returns-guard (volume_id == "") (refuse invalid_argument) (expand_to C d volume_id range) s
          response s' h in
      let (within, h₂) =
        Returns-guard
          (ltb_ℤ (pos 0) range.limit_bytes && ltb_ℤ range.limit_bytes range.required_bytes)
          (refuse out_of_range) _ s response s' h₁ in
      let (volume, s₁, found, h₃) =
        Returns-bind (get_volume C d.cloud_credentials volume_id) _ s response s' h₂ in
      (
        volume,
        s₁,
        found,
        elim (Returns-if (leb_ℤ (asked range) volume.size) (pure (answer (gb_to_bytes volume.size)))
            _ s₁ _ h₃) [
              | inl (large, given) ↦
                  let (same, kept) =
                    Returns-pure (answer (gb_to_bytes volume.size)) response s₁ s' given in
                  inl (large, sym same, kept)
              | inr (small, rest) ↦
                  let (same, sent) = enlarged volume_id range response s₁ s' rest in
                  inr (small, same, sent)
            ],
      )

  -- The capacity of the answer is at least the required bytes, if the sizes that the cloud reports are
  -- from 0 to 2^33 - 1 gigabytes.
  pub controller_expand_volume-covers :
      (volume_id : String) (range : CapacityRange) (response : ExpandResponse) (s s' : C.State)
      → ((volume : Volume)
          → (get_volume C d.cloud_credentials volume_id s).0 ≡ ok volume
          → (size : ℕ) × (volume.size ≡ pos size) × (size < 8589934592))
      → controller_expand_volume C d
          (record { volume_id = volume_id; capacity_range = some range })
          s
        ≡ (ok response, s')
      → range.required_bytes ≤ℤ response.capacity_bytes
  controller_expand_volume-covers volume_id range response s s' sizes h =
      let (volume, s₁, found, outcome) =
        controller_expand_volume-Expanded volume_id range response s s' h in
      elim outcome [
        | inl (large, same, _) ↦
            let (size, is_size, small) =
              sizes volume (ap (λ (q : Result Volume × C.State). q.0) found) in
            rw same (rw is_size (covers range.required_bytes size small (rw is_size at large)))
        | inr (_, same, _) ↦ rw same (omega arith)
      ]

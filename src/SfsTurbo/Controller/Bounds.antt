-- ===== src/SfsTurbo/Controller/Bounds.antt =====
-- The sizes that CreateVolume and ControllerExpandVolume of the SFS Turbo controller ask for.
use mathlib.Core.Path.{subst}
use huaweicloud_csi_driver.Prelude.{
  ℕ, ◌+◌, ◌-◌, ◌≤◌, ◌<◌, ◌≡◌, refl, ap, ◌∙◌, arith, Bool, true, false, not, if◌then◌else◌, ℤ, pos,
  negsuc, ltb_ℤ, ◌≤ℤ◌, ◌+ℤ◌, ◌-ℤ◌, wrap, wrap_lem, ◌⊎◌, inl, inr,
}
use huaweicloud_csi_driver.Status.{ok, refuse, out_of_range, invalid_argument}
use huaweicloud_csi_driver.Effect.{pure, fail}
use huaweicloud_csi_driver.Effect.Returns.{Returns-pure, Returns-guard, Returns-if}
use huaweicloud_csi_driver.Utils.{round_up_size, gb_byte_size}
use huaweicloud_csi_driver.Csi.{CapacityRange}
use huaweicloud_csi_driver.SfsTurbo.Controller.{
  min_size_in_gib, max_size_in_gib, expand_step_in_gib, share_size, expansion,
}

at_least :
    (size : ℤ)
    → ltb_ℤ max_size_in_gib size ≡ false
    → let chosen = if ltb_ℤ size min_size_in_gib then min_size_in_gib else size in
      (pos 500 ≤ℤ chosen) × (chosen ≤ℤ pos 32768) × (size ≤ℤ chosen)
at_least (pos n) h = (ground arith, ground arith, ground arith)
at_least (negsuc n) h = (ground arith, ground arith, ground arith)

pub not_above : (z : ℤ) → ltb_ℤ max_size_in_gib z ≡ false → z ≤ℤ pos 32768
not_above (pos n) h = ground arith
not_above (negsuc n) h = ground arith

difference :
    (size current : ℕ)
    → current < size
    → size ≤ 32768
    → wrap (pos size -ℤ pos current) ≡ pos (size - current)
unfolding ◌-ℤ◌
difference size current below small =
    let plain : pos size -ℤ pos current ≡ pos (size - current) = ground arith in
    ap wrap plain ∙ wrap_lem (pos (size - current)) (omega arith, omega arith)

sum :
    (current : ℕ) → current < 32768 → wrap (pos current +ℤ expand_step_in_gib) ≡ pos (current + 100)
unfolding ◌+ℤ◌
sum current small =
    let plain : pos current +ℤ expand_step_in_gib ≡ pos (current + 100) = ground arith in
    ap wrap plain ∙ wrap_lem (pos (current + 100)) (omega arith, omega arith)

far_size :
    (size current : ℕ)
    → current < size
    → size ≤ 32768
    → ltb_ℤ (wrap (pos size -ℤ pos current)) expand_step_in_gib ≡ false
    → (pos size ≤ℤ pos size) × (pos (current + 100) ≤ℤ pos size) × (pos size ≤ℤ pos 32768)
far_size size current below small far =
    let far' = rw (difference size current below small) at far in
    (omega arith, ground arith, omega arith)

near_size :
    (size current : ℕ)
    → current < size
    → size ≤ 32768
    → ltb_ℤ (wrap (pos size -ℤ pos current)) expand_step_in_gib ≡ true
    → let stepped = wrap (pos current +ℤ expand_step_in_gib) in
      ltb_ℤ max_size_in_gib stepped ≡ false
      → (pos size ≤ℤ stepped) × (pos (current + 100) ≤ℤ stepped) × (stepped ≤ℤ pos 32768)
near_size size current below small near fits =
    let near' = rw (difference size current below small) at near in
    let stepped : wrap (pos current +ℤ expand_step_in_gib) ≡ pos (current + 100) =
      sum current (omega arith) in
    let fits' = rw stepped at fits in rw stepped (ground arith, omega arith, ground arith)

module _ {S : Type 0} where
  -- CreateVolume asks for a size from 500 to 32768 GiB that is at least the required bytes rounded up.
  pub share_size-Bounds :
      (range : CapacityRange) (s s' : S) (size : ℤ)
      → share_size range s ≡ (ok size, s')
      → (pos 500 ≤ℤ size)
        × (size ≤ℤ pos 32768)
        × (round_up_size range.required_bytes gb_byte_size ≤ℤ size)
  unfolding share_size
  share_size-Bounds range s s' size h =
      let (fits, given) = Returns-guard _ (refuse invalid_argument) _ s size s' h in
      let (chosen, _) = Returns-pure _ size s s' given in
      rw chosen at (at_least (round_up_size range.required_bytes gb_byte_size) fits)

  -- The two ways to a size, by the tests that lead to them.
  expansion_cases :
      (size current : ℤ) (s s' : S) (new_size : ℤ)
      → expansion size current s ≡ (ok new_size, s')
      → let stepped = wrap (current +ℤ expand_step_in_gib) in
        let is_near = ltb_ℤ (wrap (size -ℤ current)) expand_step_in_gib in
        ((is_near ≡ false) × (size ≡ new_size))
        ⊎ ((is_near ≡ true) × (ltb_ℤ max_size_in_gib stepped ≡ false) × (stepped ≡ new_size))
  unfolding expansion
  expansion_cases size current s s' new_size h =
      go (ltb_ℤ (wrap (size -ℤ current)) expand_step_in_gib) h
    where
      go :
          (is_near : Bool)
          → let stepped = wrap (current +ℤ expand_step_in_gib) in
            (if not is_near
                  then pure size
                  else if ltb_ℤ max_size_in_gib stepped
                  then fail (refuse out_of_range)
                  else pure stepped)
                s
              ≡ (ok new_size, s')
            → ((is_near ≡ false) × (size ≡ new_size))
              ⊎ ((is_near ≡ true) × (ltb_ℤ max_size_in_gib stepped ≡ false) × (stepped ≡ new_size))
      go false given = inl (refl, (Returns-pure _ new_size s s' given).0)
      go true rest =
          let (fits, given) = Returns-guard _ (refuse out_of_range) _ s new_size s' rest in
          inr (refl, fits, (Returns-pure _ new_size s s' given).0)

  -- Where the current size is not negative and below the size asked for, which is within the maximum, the
  -- size of the request is at least the one asked for, at least a step more than the current one, and
  -- within the maximum.
  pub expansion-Bounds :
      (size current : ℕ) (s s' : S) (new_size : ℤ)
      → current < size
      → size ≤ 32768
      → expansion (pos size) (pos current) s ≡ (ok new_size, s')
      → (pos size ≤ℤ new_size) × (pos (current + 100) ≤ℤ new_size) × (new_size ≤ℤ pos 32768)
  expansion-Bounds size current s s' new_size below small h =
      elim (expansion_cases (pos size) (pos current) s s' new_size h) [
        | inl (far, chosen) ↦
            subst (λ z. (pos size ≤ℤ z) × (pos (current + 100) ≤ℤ z) × (z ≤ℤ pos 32768)) chosen
              (far_size size current below small far)
        | inr (near, fits, chosen) ↦ rw chosen at (near_size size current below small near fits)
      ]

  pub expansion-state :
      (size current : ℤ) (s s' : S) (new_size : ℤ)
      → expansion size current s ≡ (ok new_size, s')
      → s ≡ s'
  unfolding expansion
  expansion-state size current s s' new_size h =
      let stepped = wrap (current +ℤ expand_step_in_gib) in
      elim (Returns-if (not (ltb_ℤ (wrap (size -ℤ current)) expand_step_in_gib)) (pure size) _ s
        (ok new_size, s') h) [
          | inl (_, given) ↦ (Returns-pure size new_size s s' given).1
          | inr (_, rest) ↦
              let (_, given) =
                Returns-guard (ltb_ℤ max_size_in_gib stepped) (refuse out_of_range) (pure stepped) s
                  new_size s' rest in
              (Returns-pure stepped new_size s s' given).1
        ]

  -- The size of the request is within the maximum whatever the current size is.
  pub expansion-Max :
      (size current : ℤ) (s s' : S) (new_size : ℤ)
      → size ≤ℤ pos 32768
      → expansion size current s ≡ (ok new_size, s')
      → new_size ≤ℤ pos 32768
  expansion-Max size current s s' new_size small h =
      elim (expansion_cases size current s s' new_size h) [
        | inl (far, chosen) ↦ rw chosen at small
        | inr (near, fits, chosen) ↦ rw chosen at (not_above _ fits)
      ]

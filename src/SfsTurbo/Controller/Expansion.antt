-- ===== src/SfsTurbo/Controller/Expansion.antt =====
-- What ControllerExpandVolume of pkg/sfsturbo/controllerserver.go did when it returned an answer.
use huaweicloud_csi_driver.Prelude.{
  ◌+◌, ◌≡◌, sym, ap, ◌∙◌, arith, ◌⊎◌, inl, inr, ◌==◌, String, Option, none, some, true, false, ℤ,
  pos, negsuc, leb_ℤ, ltb_ℤ, ◌≤ℤ◌,
}
use huaweicloud_csi_driver.Status.{Result, ok, refuse, invalid_argument, out_of_range}
use huaweicloud_csi_driver.Effect.{pure, fail}
use huaweicloud_csi_driver.Effect.Returns.{Returns-bind, Returns-pure, Returns-guard, Returns-if}
use huaweicloud_csi_driver.Utils.{round_up_size, gb_byte_size, gb_to_bytes}
use huaweicloud_csi_driver.Csi.{CapacityRange, ExpandRequest, ExpandResponse}
use huaweicloud_csi_driver.SfsTurbo.Sdk.{TurboCloud, Turbo}
use huaweicloud_csi_driver.SfsTurbo.Driver.{SfsTurboDriver}
use huaweicloud_csi_driver.SfsTurbo.Services.{get_share, size_of, expand_share_completed}
use huaweicloud_csi_driver.SfsTurbo.Controller.{max_size_in_gib, turbo_expand_validation, expansion}
use huaweicloud_csi_driver.SfsTurbo.Controller.Bounds.{
  not_above, expansion-Bounds, expansion-Max, expansion-state,
}
use huaweicloud_csi_driver.SfsTurbo.Controller.Calls.{expand_turbo_to, expand_turbo}

covered : (a b : ℤ) → leb_ℤ a b ≡ true → a ≤ℤ b
covered a b h = ground arith

-- A step from a current size to a new one: the new size is at least the one asked for and a hundred GiB more than
-- the current one, unless the current one is negative.
abbrev pub StepsTo : ℤ → ℤ → ℤ → Type 0
StepsTo size (negsuc n) new_size = Unit
StepsTo size (pos n) new_size = (size ≤ℤ new_size) × (pos (n + 100) ≤ℤ new_size)

expansion-StepsTo :
    {S : Type 0} (size current new_size : ℤ) (s s' : S)
    → size ≤ℤ pos 32768
    → leb_ℤ size current ≡ false
    → expansion size current s ≡ (ok new_size, s')
    → StepsTo size current new_size
expansion-StepsTo size (negsuc n) new_size s s' small less h = tt
expansion-StepsTo (negsuc m) (pos n) new_size s s' small less h = absurd (ground arith)
expansion-StepsTo (pos m) (pos n) new_size s s' small less h =
    let (asked, step, _) = expansion-Bounds m n s s' new_size (ground arith) (ground arith) h in
    (asked, step)

module _ (C : TurboCloud) (d : SfsTurboDriver) where
  -- The answer where the share was large enough, with no request; or that of an expansion to the new size,
  -- which was completed by the last calls.
  abbrev pub Expanded : String → ℤ → ℤ → ExpandResponse → C.State → C.State → Type 0
  Expanded id size current answer s s' =
      ((size ≤ℤ current) × (answer.capacity_bytes ≡ gb_to_bytes current) × (s ≡ s'))
      ⊎ ((new_size : ℤ) × (expand_share_completed C d.cloud id new_size s ≡ (ok tt, s'))
          × (answer.capacity_bytes ≡ new_size)
          × (new_size ≤ℤ pos 32768)
          × StepsTo size current new_size)

  -- The share and its size that the cloud reported before.
  abbrev pub ExpandedFrom : String → ℤ → ExpandResponse → C.State → Type 0
  ExpandedFrom id size answer s' =
      (share : Turbo) × (current : ℤ) × (s₁ : C.State) × (s₂ : C.State) × (s₃ : C.State)
      × (get_share C d.cloud id s₁ ≡ (ok share, s₂))
      × (size_of C share.size s₂ ≡ (ok current, s₃))
      × Expanded id size current answer s₃ s'

  expand_turbo_to-From :
      (id : String) (size : ℤ) (answer : ExpandResponse) (s s' : C.State)
      → size ≤ℤ pos 32768
      → expand_turbo_to C d id size s ≡ (ok answer, s')
      → ExpandedFrom id size answer s'
  unfolding expand_turbo_to gb_to_bytes
  expand_turbo_to-From id size answer s s' small h =
      let (share, s₂, got, h₁) = Returns-bind _ _ s answer s' h in
      let (current, s₃, sized, h₂) = Returns-bind _ _ s₂ answer s' h₁ in
      (
        share,
        current,
        s,
        s₂,
        s₃,
        got,
        sized,
        elim (Returns-if (leb_ℤ size current) _ _ s₃ (ok answer, s') h₂) [
          | inl (enough, given) ↦
              let (same, kept) = Returns-pure _ answer s₃ s' given in
              inl (
                covered size current enough,
                sym (ap (λ (r : ExpandResponse). r.capacity_bytes) same),
                kept,
              )
          | inr (less, rest) ↦
              let (new_size, s₄, chosen, h₃) = Returns-bind _ _ s₃ answer s' rest in
              let (_, s₅, done, given) = Returns-bind _ _ s₄ answer s' h₃ in
              let (same, kept) = Returns-pure _ answer s₅ s' given in
              let start = expansion-state size current s₃ s₄ new_size chosen in
              inr (
                new_size,
                ap (expand_share_completed C d.cloud id new_size) start
                    ∙ (done ∙ ap (λ t. (ok tt, t)) kept),
                sym (ap (λ (r : ExpandResponse). r.capacity_bytes) same),
                expansion-Max size current s₃ s₄ new_size small chosen,
                expansion-StepsTo size current new_size s₃ s₄ small less chosen,
              )
        ],
      )

  turbo_expand_validation-range :
      (id : String) (asked : Option CapacityRange) (range : CapacityRange) (s s' : C.State)
      → turbo_expand_validation id asked s ≡ (ok range, s')
      → asked ≡ some range
  unfolding turbo_expand_validation
  turbo_expand_validation-range id none range s s' h =
      let (_, refused) =
        Returns-guard (id == "") (refuse invalid_argument) (fail (refuse invalid_argument)) s range
          s' h in
      absurd (cc (ap (λ (q : Result CapacityRange × C.State). q.0) refused))
  turbo_expand_validation-range id (some asked) range s s' h =
      let (_, given) =
        Returns-guard (id == "") (refuse invalid_argument) (pure asked) s range s' h in
      ap some (Returns-pure asked range s s' given).0

  -- Where ControllerExpandVolume returns an answer, the request had a capacity range, whose required bytes
  -- in GiB, rounded up, are at most 32768, and the cloud reported the share and its current size. Either
  -- the current size is at least that, the answer is the current size in bytes, and nothing more was done;
  -- or the last thing that it did was an expansion that was completed, to a size that is at most 32768 GiB,
  -- at least the size asked for and at least 100 GiB more than the current size, the last two unless the
  -- cloud reported a negative size. The answer of an expansion is the new size in GiB.
  pub expand_turbo-Expanded :
      (req : ExpandRequest) (answer : ExpandResponse) (s s' : C.State)
      → expand_turbo C d req s ≡ (ok answer, s')
      → (range : CapacityRange) × (req.capacity_range ≡ some range)
        × (round_up_size range.required_bytes gb_byte_size ≤ℤ pos 32768)
        × ExpandedFrom req.volume_id (round_up_size range.required_bytes gb_byte_size) answer s'
  unfolding expand_turbo
  expand_turbo-Expanded req answer s s' h =
      let (range, s₁, checked, h₁) = Returns-bind _ _ s answer s' h in
      let size = round_up_size range.required_bytes gb_byte_size in
      let (fits, rest) =
        Returns-guard (ltb_ℤ max_size_in_gib size) (refuse out_of_range) _ s₁ answer s' h₁ in
      let small = not_above size fits in
      (
        range,
        turbo_expand_validation-range req.volume_id req.capacity_range range s s₁ checked,
        small,
        expand_turbo_to-From req.volume_id size answer s₁ s' small rest,
      )

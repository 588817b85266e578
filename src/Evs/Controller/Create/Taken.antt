-- ===== src/Evs/Controller/Create/Taken.antt =====
-- CreateVolume of pkg/evs/controllerserver.go where the name is taken.
use huaweicloud_csi_driver.Prelude.{
  ◌≡◌, ◌≢◌, refl, eq_iff, ◌==◌, inl, inr, String, Bool, true, false, some, List, [], ◌∷◌, ℤ, pos,
  eqb_ℤ, Bool-cases, if◌then◌else◌,
}
use huaweicloud_csi_driver.Prelude.Dict.{get}
use huaweicloud_csi_driver.Status.{Result, ok, err, refuse, wrapping, internal, already_exists}
use huaweicloud_csi_driver.Effect.{pure, fail, attempt, ◌>>=◌, map_error}
use huaweicloud_csi_driver.Csi
use huaweicloud_csi_driver.Csi.{VolumeCapability, CreateVolumeRequest}
use huaweicloud_csi_driver.Evs.Sdk.{Cloud, Volume}
use huaweicloud_csi_driver.Evs.Driver.{EvsDriver}
use huaweicloud_csi_driver.Evs.Services.Volumes.{list_volumes, check_volume_exists, same_name}
use huaweicloud_csi_driver.Evs.Controller.Create.{
  create_volume_validation, requested_gb, build_create_volume_response, create_or_reuse,
  create_volume,
}

not_equal : (a b : String) → a ≢ b → (a == b) ≡ false
not_equal a b h = elim (Bool-cases (a == b)) [ inl t ↦ absurd (h ((eq_iff a b).0 t)) | inr f ↦ f ]

-- The answer where the volumes that have the name are `vol` and `rest`.
abbrev pub answer_taken : CreateVolumeRequest → Volume → List Volume → Result Csi.Volume
answer_taken req vol [] =
    if eqb_ℤ (requested_gb req.capacity_range) vol.size
    then ok (build_create_volume_response vol (get req.parameters "dssId"))
    else err (refuse internal)
answer_taken req vol (other ∷ rest) = err (refuse internal)

module _ (C : Cloud) (d : EvsDriver) where
  check_volume_exists_lem :
      (name : String) (size : ℤ) (vol : Volume) (rest : List Volume) (s s' : C.State)
      → list_volumes C d.cloud_credentials (record { name = name; marker = ""; limit = pos 0 }) s
        ≡ (ok (vol ∷ rest), s')
      → check_volume_exists C d.cloud_credentials name size s ≡ same_name size (vol ∷ rest) s'
  unfolding check_volume_exists attempt
  check_volume_exists_lem name size vol rest s s' listed = rw listed refl

  valid_lem :
      (name : String) (given : List VolumeCapability) (capability : VolumeCapability)
      (capabilities : List VolumeCapability) (s : C.State)
      → name ≢ ""
      → given ≡ capability ∷ capabilities
      → create_volume_validation name given s ≡ (ok tt, s)
  unfolding create_volume_validation
  valid_lem name given capability capabilities s named capable =
      rw (not_equal name "" named, capable) refl

  after_check :
      (req : CreateVolumeRequest) (vol : Volume) (rest : List Volume) (s : C.State)
      → (map_error (wrapping internal) (same_name (requested_gb req.capacity_range) (vol ∷ rest))
            >>= create_or_reuse C d req)
          s
        ≡ (answer_taken req vol rest, s)
  unfolding same_name create_or_reuse attempt
  after_check req vol (other ∷ rest) s = refl
  after_check req vol [] s = go (eqb_ℤ (requested_gb req.capacity_range) vol.size)
    where
      go :
          (b : Bool)
          → (map_error
                  (wrapping internal)
                  (if b then pure (some vol) else fail (refuse already_exists))
                >>= create_or_reuse C d req)
              s
            ≡ (
              if b
                  then ok (build_create_volume_response vol (get req.parameters "dssId"))
                  else err (refuse internal),
              s,
            )
      go true = refl
      go false = refl

  -- A valid request whose name is taken creates nothing: CreateVolume ends in the state after the query
  -- by name. It answers the volume if it is the only one and has the size asked for, and Internal
  -- otherwise.
  pub create_volume-taken :
      (req : CreateVolumeRequest) (capability : VolumeCapability)
      (capabilities : List VolumeCapability) (vol : Volume) (rest : List Volume) (s s' : C.State)
      → req.name ≢ ""
      → req.volume_capabilities ≡ capability ∷ capabilities
      → list_volumes C d.cloud_credentials
          (record { name = req.name; marker = ""; limit = pos 0 })
          s
        ≡ (ok (vol ∷ rest), s')
      → create_volume C d req s ≡ (answer_taken req vol rest, s')
  unfolding create_volume attempt
  create_volume-taken req capability capabilities vol rest s s' named capable listed =
      rw
        (
          valid_lem req.name req.volume_capabilities capability capabilities s named capable,
          check_volume_exists_lem req.name (requested_gb req.capacity_range) vol rest s s' listed,
        )
        (after_check req vol rest s')

-- ===== src/Evs/Controller/Create/Safety.antt =====
-- Which requests CreateVolume can send. A property of the cloud is a predicate on its states that the
-- queries keep.
use huaweicloud_csi_driver.Prelude.{◌≡◌, refl, String, Option, none, some, List, [], ◌∷◌, ℤ, pos}
use huaweicloud_csi_driver.Utils.{round_up_size, gb_byte_size}
use huaweicloud_csi_driver.Effect.Keeps.{Keeps, keeps_rules, Keeps-if}
use huaweicloud_csi_driver.Common.{IsTimer}
use huaweicloud_csi_driver.Config.{ServiceClient}
use huaweicloud_csi_driver.Evs.Sdk.{Cloud, Volume, CreateOpts}
use huaweicloud_csi_driver.Evs.Driver.{EvsDriver}
use huaweicloud_csi_driver.Prelude.Dict.{Dict, get}
use huaweicloud_csi_driver.Csi.{
  VolumeCapability, CapacityRange, VolumeContentSource, source_unset, source_snapshot,
  source_volume, CreateVolumeRequest,
}
use huaweicloud_csi_driver.Evs.Services.Effects.{
  QueriesKeep, get_volume-Keeps, list_volumes-Keeps, get_snapshot-Keeps,
  create_volume_completed-Keeps, create_cinder_completed-Keeps,
}
use huaweicloud_csi_driver.Evs.Services.Volumes.{same_name, check_volume_exists}
use huaweicloud_csi_driver.Evs.Controller.Create.{
  create_volume_validation, parsed, numeric_parameter, get_io_and_through, tuning,
  check_snapshot_exists, requested_gb, create_opts, create_by_size, create_new, create_or_reuse,
  create_volume,
}

-- The size in GiB that a request asks for: the required bytes rounded up, or ten without a range.
abbrev pub SizeAsked : Option CapacityRange → ℤ → Type 0
SizeAsked none size = size ≡ pos 10
SizeAsked (some range) size = size ≡ round_up_size range.required_bytes gb_byte_size

requested_gb-Asked : (asked : Option CapacityRange) → SizeAsked asked (requested_gb asked)
unfolding requested_gb
requested_gb-Asked none = refl
requested_gb-Asked (some range) = refl

module _ {S : Type 0} {P : S → Type 0} where
  same_name-Keeps : (size : ℤ) (volumes : List Volume) → Keeps P (same_name size volumes)
  unfolding same_name
  same_name-Keeps size [] = search keeps_rules
  same_name-Keeps size (vol ∷ []) = search keeps_rules
  same_name-Keeps size (vol ∷ other ∷ rest) = search keeps_rules

  validation-Keeps :
      (name : String) (capabilities : List VolumeCapability)
      → Keeps P (create_volume_validation name capabilities)
  unfolding create_volume_validation
  validation-Keeps name [] = search keeps_rules
  validation-Keeps name (capability ∷ rest) = search keeps_rules

  parsed-Keeps : (o : Option ℤ) → Keeps P (parsed o)
  unfolding parsed
  parsed-Keeps none = search keeps_rules
  parsed-Keeps (some n) = search keeps_rules

  numeric_parameter-Keeps : (value : String) → Keeps P (numeric_parameter value)
  unfolding numeric_parameter
  numeric_parameter-Keeps value = search (keeps_rules, parsed-Keeps)

  tuning-Keeps : (parameters : Dict String) → Keeps P (tuning parameters)
  unfolding tuning get_io_and_through
  tuning-Keeps parameters = search (keeps_rules, numeric_parameter-Keeps)

module _ (C : Cloud) (d : EvsDriver) (lawful : IsTimer C.timer) {P : C.State → Type 0}
    (queries : QueriesKeep C P) where
  check_snapshot_exists-Keeps :
      (source : Option VolumeContentSource)
      → Keeps P (check_snapshot_exists C d.cloud_credentials source)
  unfolding check_snapshot_exists
  check_snapshot_exists-Keeps none = search keeps_rules
  check_snapshot_exists-Keeps (some source_unset) = search keeps_rules
  check_snapshot_exists-Keeps (some (source_volume id)) = search keeps_rules
  check_snapshot_exists-Keeps (some (source_snapshot id)) =
      search (keeps_rules, get_snapshot-Keeps C d.cloud_credentials lawful queries)

  check_volume_exists-Keeps :
      (name : String) (size : ℤ) → Keeps P (check_volume_exists C d.cloud_credentials name size)
  unfolding check_volume_exists
  check_volume_exists-Keeps name size =
      search (keeps_rules, same_name-Keeps, list_volumes-Keeps C d.cloud_credentials lawful queries)

  -- What the two requests that create a volume of the request's name, size and type keep.
  abbrev pub CreationKeeps : CreateVolumeRequest → Type 0
  CreationKeeps req =
      (client : ServiceClient) (opts : CreateOpts)
      → opts.volume.name ≡ req.name
      → SizeAsked req.capacity_range opts.volume.size
      → opts.volume.volume_type ≡ get req.parameters "type"
      → Keeps P (C.volumes_create client opts) × Keeps P (C.cinder_create client opts.volume)

  create_by_size-Keeps :
      (req : CreateVolumeRequest) (snapshot_id : String) (io : ℤ × ℤ)
      → CreationKeeps req
      → Keeps P (create_by_size C d.cloud_credentials (create_opts C d req snapshot_id io))
  unfolding create_by_size create_opts
  create_by_size-Keeps req snapshot_id io h =
      let opts = create_opts C d req snapshot_id io in
      let sized = requested_gb-Asked req.capacity_range in
      Keeps-if _ _ _
        (create_cinder_completed-Keeps C d.cloud_credentials lawful queries opts
          (λ client. (h client opts refl sized refl).1))
        (create_volume_completed-Keeps C d.cloud_credentials lawful queries opts
          (λ client. (h client opts refl sized refl).0))

  create_new-Keeps : (req : CreateVolumeRequest) → CreationKeeps req → Keeps P (create_new C d req)
  unfolding create_new
  create_new-Keeps req h = search (
    keeps_rules,
    check_snapshot_exists-Keeps,
    tuning-Keeps,
    create_by_size-Keeps,
    h,
    get_volume-Keeps C d.cloud_credentials lawful queries,
  )

  continued-Keeps :
      (req : CreateVolumeRequest) (found : Option Volume)
      → CreationKeeps req
      → Keeps P (create_or_reuse C d req found)
  unfolding create_or_reuse
  continued-Keeps req none h = create_new-Keeps req h
  continued-Keeps req (some vol) h = search keeps_rules

  -- CreateVolume changes nothing but by a request that creates a volume with the name of its own request,
  -- with the size that it was asked for, which is the required bytes in GiB rounded up, or ten without a
  -- capacity range, and with the type of the parameter "type": what the queries and those requests keep, it
  -- keeps.
  pub create_volume-Keeps :
      (req : CreateVolumeRequest) → CreationKeeps req → Keeps P (create_volume C d req)
  unfolding create_volume
  create_volume-Keeps req h =
      search (keeps_rules, validation-Keeps, check_volume_exists-Keeps, continued-Keeps, h)

-- ===== src/SfsTurbo/Controller/Safety.antt =====
-- Which requests the calls of the SFS Turbo controller can send. A property of the cloud is a predicate
-- on its states that the queries keep.
use huaweicloud_csi_driver.Prelude.{
  String, Bool, Option, none, some, List, [], ◌∷◌, ℤ, pos, ltb_ℤ, ◌≤ℤ◌, Bool-cases, inl, inr, ap,
}
use huaweicloud_csi_driver.Status.{Result, refuse, out_of_range}
use huaweicloud_csi_driver.Effect.{◌>>=◌}
use huaweicloud_csi_driver.Effect.Keeps.{
  Keeps, keeps_rules, Keeps-if, Keeps-attempt, Keeps-attempt_result, Keeps-fail, Keeps-pure,
}
use huaweicloud_csi_driver.Common.{IsTimer}
use huaweicloud_csi_driver.Config.{ServiceClient}
use huaweicloud_csi_driver.Utils.{round_up_size, gb_byte_size}
use huaweicloud_csi_driver.Csi.{
  CapacityRange, VolumeCapability, CreateVolumeRequest, Topology, ListRequest, ExpandRequest,
}
use huaweicloud_csi_driver.SfsTurbo.Sdk.{TurboCloud, Turbo, CreateOpts}
use huaweicloud_csi_driver.SfsTurbo.Driver.{SfsTurboDriver}
use huaweicloud_csi_driver.SfsTurbo.Services.{described}
use huaweicloud_csi_driver.SfsTurbo.Services.Effects.{
  SharesKeep, size_of-Keeps, get_share-Keeps, list_total_shares-Keeps, list_page_shares-Keeps,
  create_share_completed-Keeps, delete_share_completed-Keeps, expand_share_completed-Keeps,
}
use huaweicloud_csi_driver.SfsTurbo.Controller.{
  share_size, placement, turbo_opts, turbo_create_validation, turbo_expand_validation, expansion,
  max_size_in_gib,
}
use huaweicloud_csi_driver.SfsTurbo.Controller.Bounds.{not_above, share_size-Bounds, expansion-Max}
use huaweicloud_csi_driver.SfsTurbo.Controller.Calls.{
  compare_share, find_share, check_share_exists, create_or_reuse_share, create_turbo, delete_turbo,
  bytes_of, get_turbo, turbo_entries, list_turbo, validate_turbo_capabilities, expand_turbo_to,
  expand_turbo,
}

module _ {S : Type 0} {P : S → Type 0} where
  share_size-Keeps : (range : CapacityRange) → Keeps P (share_size range)
  unfolding share_size
  share_size-Keeps range = search keeps_rules

  placement-Keeps : (req : CreateVolumeRequest) → Keeps P (placement req)
  unfolding placement
  placement-Keeps req = search keeps_rules

  turbo_create_validation-Keeps :
      (name : String) (range : Option CapacityRange) → Keeps P (turbo_create_validation name range)
  unfolding turbo_create_validation
  turbo_create_validation-Keeps name none = search keeps_rules
  turbo_create_validation-Keeps name (some range) = search keeps_rules

  turbo_expand_validation-Keeps :
      (name : String) (range : Option CapacityRange) → Keeps P (turbo_expand_validation name range)
  unfolding turbo_expand_validation
  turbo_expand_validation-Keeps name none = search keeps_rules
  turbo_expand_validation-Keeps name (some range) = search keeps_rules

  expansion-Keeps : (size current : ℤ) → Keeps P (expansion size current)
  unfolding expansion
  expansion-Keeps size current = search keeps_rules

module _ (C : TurboCloud) {P : C.State → Type 0} where
  compare_share-Keeps : (v : Turbo) (opts : CreateOpts) → Keeps P (compare_share C v opts)
  unfolding compare_share
  compare_share-Keeps v opts = search (keeps_rules, size_of-Keeps)

  find_share-Keeps : (turbos : List Turbo) (opts : CreateOpts) → Keeps P (find_share C turbos opts)
  unfolding find_share
  find_share-Keeps [] opts = search keeps_rules
  find_share-Keeps (v ∷ rest) opts =
      Keeps-if _ _ _ (compare_share-Keeps v opts) (find_share-Keeps rest opts)

  bytes_of-Keeps : (size : String) → Keeps P (bytes_of C size)
  unfolding bytes_of
  bytes_of-Keeps size = search keeps_rules

  turbo_entries-Keeps : (shares : List Turbo) → Keeps P (turbo_entries C shares)
  unfolding turbo_entries
  turbo_entries-Keeps [] = search keeps_rules
  turbo_entries-Keeps (element ∷ rest) =
      Keeps-attempt _ _ _ (bytes_of-Keeps element.size) Keeps-fail (λ bytes.
        Keeps-attempt _ _ _ (turbo_entries-Keeps rest) Keeps-fail (λ entries. Keeps-pure _))

module _ (C : TurboCloud) (d : SfsTurboDriver) (lawful : IsTimer C.timer) {P : C.State → Type 0}
    (queries : SharesKeep C P) where
  check_share_exists-Keeps : (opts : CreateOpts) → Keeps P (check_share_exists C d opts)
  unfolding check_share_exists
  check_share_exists-Keeps opts =
      search (keeps_rules, list_total_shares-Keeps C d.cloud lawful queries, find_share-Keeps)

  create_or_reuse_share-Keeps :
      (req : CreateVolumeRequest) (opts : CreateOpts) (topology : List Topology)
      (found : Option Turbo)
      → ((client : ServiceClient) → Keeps P (C.shares_create client (described opts)))
      → Keeps P (create_or_reuse_share C d req opts topology found)
  unfolding create_or_reuse_share
  create_or_reuse_share-Keeps req opts topology none h =
      search (keeps_rules, create_share_completed-Keeps C d.cloud lawful queries, h)
  create_or_reuse_share-Keeps req opts topology (some share) h = search keeps_rules

  placed-Keeps :
      (req : CreateVolumeRequest) (size : ℤ)
      → ((client : ServiceClient) (zone : String)
          → Keeps P (C.shares_create client (described (turbo_opts d req size zone))))
      → Keeps P (
          placement req >>= λ place.
          let opts = turbo_opts d req size place.0 in
          check_share_exists C d opts >>= create_or_reuse_share C d req opts place.1)
  placed-Keeps req size h =
      search
        (keeps_rules, placement-Keeps, check_share_exists-Keeps, create_or_reuse_share-Keeps, h)

  -- CreateVolume changes nothing but by a request that creates a share with the name that it was asked
  -- for and a size from 500 to 32768 GiB: what the queries and those requests keep, it keeps.
  pub create_turbo-Keeps :
      (req : CreateVolumeRequest)
      → ((client : ServiceClient) (size : ℤ) (zone : String)
          → pos 500 ≤ℤ size
          → size ≤ℤ pos 32768
          → Keeps P (C.shares_create client (described (turbo_opts d req size zone))))
      → Keeps P (create_turbo C d req)
  unfolding create_turbo
  create_turbo-Keeps req h =
      Keeps-attempt _ _ _ (turbo_create_validation-Keeps req.name req.capacity_range) Keeps-fail
        (λ range. Keeps-attempt_result _ _ _ (share_size-Keeps range) Keeps-fail (λ size s p e.
          let (low, high, _) =
            share_size-Bounds range s (share_size range s).1 size
              (ap (λ (r : Result ℤ). (r, (share_size range s).1)) e) in
          placed-Keeps req size (λ client zone. h client size zone low high)))

  -- DeleteVolume changes nothing but by the request that deletes the share that it is given.
  pub delete_turbo-Keeps :
      (volume_id : String)
      → ((client : ServiceClient) → Keeps P (C.shares_delete client volume_id))
      → Keeps P (delete_turbo C d volume_id)
  unfolding delete_turbo
  delete_turbo-Keeps volume_id h =
      search (keeps_rules, delete_share_completed-Keeps C d.cloud lawful queries, h)

  abbrev is_above : CapacityRange → Bool
  is_above range = ltb_ℤ max_size_in_gib (round_up_size range.required_bytes gb_byte_size)

  expand_turbo_to-Keeps :
      (volume_id : String) (size : ℤ)
      → size ≤ℤ pos 32768
      → ((client : ServiceClient) (new_size : ℤ)
          → new_size ≤ℤ pos 32768
          → Keeps P (C.shares_expand client volume_id new_size))
      → Keeps P (expand_turbo_to C d volume_id size)
  unfolding expand_turbo_to
  expand_turbo_to-Keeps volume_id size small h =
      Keeps-attempt _ _ _ (get_share-Keeps C d.cloud lawful queries volume_id) Keeps-fail (λ share.
        Keeps-attempt _ _ _ (size_of-Keeps C share.size) Keeps-fail (λ current.
          Keeps-if _ _ _ (Keeps-pure _) (
            Keeps-attempt_result _ _ _ (expansion-Keeps size current) Keeps-fail (λ new_size s p e.
              let fits =
                expansion-Max size current s (expansion size current s).1 new_size small
                  (ap (λ (r : Result ℤ). (r, (expansion size current s).1)) e) in
              search (
                keeps_rules,
                expand_share_completed-Keeps C d.cloud lawful queries,
                λ (client : ServiceClient). h client new_size fits,
              )))))

  -- ControllerExpandVolume changes nothing but by a request that expands the share that it is given to
  -- a size of at most 32768 GiB.
  pub expand_turbo-Keeps :
      (req : ExpandRequest)
      → ((client : ServiceClient) (new_size : ℤ)
          → new_size ≤ℤ pos 32768
          → Keeps P (C.shares_expand client req.volume_id new_size))
      → Keeps P (expand_turbo C d req)
  unfolding expand_turbo
  expand_turbo-Keeps req h =
      Keeps-attempt _ _ _ (turbo_expand_validation-Keeps req.volume_id req.capacity_range)
        Keeps-fail
        (λ range. elim (Bool-cases (is_above range)) [
          | inl above ↦ rw above (Keeps-fail (refuse out_of_range))
          | inr fits ↦ rw fits (expand_turbo_to-Keeps req.volume_id _ (not_above _ fits) h)
        ])

  -- ControllerGetVolume, ListVolumes and ValidateVolumeCapabilities send queries alone: what those
  -- keep, the three calls keep.
  pub turbo_queries-Keeps :
      (volume_id : String) (page : ListRequest) (capabilities : List VolumeCapability)
      → Keeps P (get_turbo C d volume_id)
        × Keeps P (list_turbo C d page)
        × Keeps P (validate_turbo_capabilities C d volume_id capabilities)
  unfolding get_turbo list_turbo validate_turbo_capabilities
  turbo_queries-Keeps volume_id page [] = (
    search (keeps_rules, get_share-Keeps C d.cloud lawful queries, bytes_of-Keeps),
    search (keeps_rules, list_page_shares-Keeps C d.cloud lawful queries, turbo_entries-Keeps),
    search keeps_rules,
  )
  turbo_queries-Keeps volume_id page (capability ∷ rest) = (
    search (keeps_rules, get_share-Keeps C d.cloud lawful queries, bytes_of-Keeps),
    search (keeps_rules, list_page_shares-Keeps C d.cloud lawful queries, turbo_entries-Keeps),
    search (keeps_rules, get_share-Keeps C d.cloud lawful queries),
  )

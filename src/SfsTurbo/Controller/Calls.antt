-- ===== src/SfsTurbo/Controller/Calls.antt =====
-- The calls of the SFS Turbo controller (pkg/sfsturbo/controllerserver.go).
use huaweicloud_csi_driver.Prelude.{
  String, ◌==◌, false, Option, none, some, List, [], ◌∷◌, length, if◌then◌else◌, ℤ, pos, ltb_ℤ,
  leb_ℤ, eqb_ℤ,
}
use huaweicloud_csi_driver.Status.{refuse, internal, invalid_argument, unimplemented, out_of_range}
use huaweicloud_csi_driver.Effect.{M, pure, fail, lift, ◌>>=◌, ◌>>◌, map_error}
use huaweicloud_csi_driver.Utils.{round_up_size, gb_byte_size, gb_to_bytes}
use huaweicloud_csi_driver.Csi
use huaweicloud_csi_driver.Csi.{
  CapacityRange, VolumeCapability, CreateVolumeRequest, Topology, ListRequest, ListVolumesEntry,
  ListVolumesResponse, ExpandRequest, ExpandResponse, ControllerGetVolumeResponse, ValidateResponse,
}
use huaweicloud_csi_driver.Evs.Driver.{ControllerCapability}
use huaweicloud_csi_driver.SfsTurbo.Sdk.{TurboCloud, Turbo, CreateOpts}
use huaweicloud_csi_driver.SfsTurbo.Driver.{SfsTurboDriver}
use huaweicloud_csi_driver.SfsTurbo.Services.{
  get_share, list_total_shares, list_page_shares, create_share_completed, delete_share_completed,
  expand_share_completed, size_of,
}
use huaweicloud_csi_driver.SfsTurbo.Controller.{
  turbo_volume, build_turbo_response, share_size, placement, turbo_opts, opts_of, same_opts,
  next_page, page_opts, turbo_create_validation, turbo_expand_validation, expansion,
  confirmed_modes, turbo_error, max_size_in_gib,
}

module _ (C : TurboCloud) where
  open C use {State}

  -- What checkVolumeExists does with a share that has the name.
  unfoldable pub compare_share : Turbo → CreateOpts → M State (Option Turbo)
  compare_share v opts = do
    size ← size_of C v.size
    if same_opts (opts_of v size) opts then pure (some v) else fail (refuse invalid_argument)

  -- Its loop: only the first share that has the name is compared.
  unfoldable pub find_share : List Turbo → CreateOpts → M State (Option Turbo)
  find_share [] opts = pure none
  find_share (v ∷ rest) opts =
      let others = find_share rest opts in
      if v.name == opts.name then compare_share v opts else others

  unfoldable pub check_share_exists : SfsTurboDriver → CreateOpts → M State (Option Turbo)
  check_share_exists d opts = do turbos ← list_total_shares C d.cloud; find_share turbos opts

  -- What CreateVolume does once it knows whether the share is there.
  unfoldable pub create_or_reuse_share :
      SfsTurboDriver
      → CreateVolumeRequest
      → CreateOpts
      → List Topology
      → Option Turbo
      → M State Csi.Volume
  create_or_reuse_share d req opts topology (some share) = do
    number ← lift (C.float64.parse_float share.size)
    pure (build_turbo_response share.id (C.float64.to_int number) req topology)
  create_or_reuse_share d req opts topology none = do
    id ← create_share_completed C d.cloud opts
    pure (build_turbo_response id opts.size req topology)

  -- CreateVolume
  unfoldable pub create_turbo : SfsTurboDriver → CreateVolumeRequest → M State Csi.Volume
  create_turbo d req = do
    range ← turbo_create_validation req.name req.capacity_range
    size ← share_size range
    place ← placement req
    let opts = turbo_opts d req size place.0
    found ← check_share_exists d opts
    create_or_reuse_share d req opts place.1 found

  -- DeleteVolume
  unfoldable pub delete_turbo : SfsTurboDriver → String → M State (Unit {0})
  delete_turbo d volume_id =
      if volume_id == ""
      then fail (refuse invalid_argument)
      else delete_share_completed C d.cloud volume_id

  -- The bytes of a size that is a text: the product is a float too.
  unfoldable pub bytes_of : String → M State ℤ
  bytes_of size = do
    number ← map_error (λ e. refuse internal) (lift (C.float64.parse_float size))
    pure (C.float64.to_int (C.float64.times number gb_byte_size))

  -- ControllerGetVolume; its response names no nodes.
  unfoldable pub get_turbo : SfsTurboDriver → String → M State ControllerGetVolumeResponse
  get_turbo d volume_id = if volume_id == "" then fail (refuse invalid_argument) else (do
    share ← map_error turbo_error (get_share C d.cloud volume_id)
    bytes ← bytes_of share.size
    pure (record { volume = turbo_volume volume_id bytes; published_node_ids = [] }))

  -- The loop of ListVolumes.
  unfoldable pub turbo_entries : List Turbo → M State (List ListVolumesEntry)
  turbo_entries [] = pure []
  turbo_entries (element ∷ rest) =
      let others = turbo_entries rest in
      (do
        bytes ← bytes_of element.size
        entries ← others
        pure (record { volume = turbo_volume element.id bytes; published_node_ids = [] } ∷ entries))

  -- ListVolumes
  unfoldable pub list_turbo : SfsTurboDriver → ListRequest → M State ListVolumesResponse
  list_turbo d req = if eqb_ℤ req.max_entries (pos 0) then fail (refuse invalid_argument) else (do
    page ← list_page_shares C d.cloud (page_opts req)
    entries ← turbo_entries page.shares
    pure (record {
      entries = entries;
      next_token = next_page (page_opts req).offset (length entries) page.count;
    }))

  unfoldable pub validate_turbo_capabilities :
      SfsTurboDriver → String → List VolumeCapability → M State ValidateResponse
  validate_turbo_capabilities d volume_id [] = fail (refuse invalid_argument)
  validate_turbo_capabilities d volume_id (c ∷ rest) =
      if volume_id == "" then fail (refuse invalid_argument) else (do
        map_error turbo_error (get_share C d.cloud volume_id)
        pure (record { confirmed = some (confirmed_modes d.vcap (c ∷ rest)); message = "" }))

  -- ControllerExpandVolume with a size that is not above the maximum. The response of an expansion
  -- has the size in gibibytes where its field is in bytes.
  unfoldable pub expand_turbo_to : SfsTurboDriver → String → ℤ → M State ExpandResponse
  unfolding gb_to_bytes
  expand_turbo_to d volume_id size = do
    share ← get_share C d.cloud volume_id
    current ← size_of C share.size
    if leb_ℤ size current
        then pure (record { capacity_bytes = gb_to_bytes current; node_expansion_required = false })
        else (do
          new_size ← expansion size current
          expand_share_completed C d.cloud volume_id new_size
          pure (record { capacity_bytes = new_size; node_expansion_required = false }))

  unfoldable pub expand_turbo : SfsTurboDriver → ExpandRequest → M State ExpandResponse
  expand_turbo d req = do
    range ← turbo_expand_validation req.volume_id req.capacity_range
    let size = round_up_size range.required_bytes gb_byte_size
    if ltb_ℤ max_size_in_gib size
        then fail (refuse out_of_range)
        else expand_turbo_to d req.volume_id size

  -- ControllerPublishVolume, ControllerUnpublishVolume, CreateSnapshot, DeleteSnapshot,
  -- ListSnapshots, GetCapacity
  unfoldable pub unsupported : {A : Type 0} → M State A
  unsupported = fail (refuse unimplemented)

  unfoldable pub turbo_capabilities : SfsTurboDriver → M State (List ControllerCapability)
  turbo_capabilities d = pure d.cscap

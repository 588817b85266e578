-- ===== src/Sfs/Controller.antt =====
-- The controller service of the SFS driver (pkg/sfs/controllerserver.go).
pub mod Safety
pub mod Codes
pub mod Origin
use huaweicloud_csi_driver.Prelude.{
  String, ◌==◌, Bool, true, false, ◌&&◌, Option, none, some, List, [], ◌∷◌, if◌then◌else◌, ℤ, pos,
  eqb_ℤ,
}
use huaweicloud_csi_driver.Status.{
  Error, wrapping, refuse, panic, is_default_404, internal, invalid_argument, not_found,
  unimplemented,
}
use huaweicloud_csi_driver.Effect.{M, pure, fail, lift, attempt, ◌>>=◌, ◌>>◌, map_error}
use huaweicloud_csi_driver.Utils.{round_up_size, gb_byte_size, gb_to_bytes}
use huaweicloud_csi_driver.Config.{ServiceClient}
use huaweicloud_csi_driver.Csi
use huaweicloud_csi_driver.Csi.{
  same_mode, multi_node_single_writer, VolumeCapability, CapacityRange, CreateVolumeRequest,
  ValidateResponse,
}
use huaweicloud_csi_driver.Evs.Driver.{ControllerCapability}
use huaweicloud_csi_driver.Sfs.Sdk.{SfsCloud, Share, CreateOpts}
use huaweicloud_csi_driver.Sfs.Driver.{SfsDriver, sfs_client}
use huaweicloud_csi_driver.Sfs.Shares.{create_sfs_share, delete_sfs_share, grant_access_to}

unfoldable pub sfs_create_validation :
    {S : Type 0} → String → Option CapacityRange → M S CapacityRange
sfs_create_validation name capacity_range =
    if name == ""
    then fail (refuse invalid_argument)
    else elim capacity_range [ none ↦ fail (refuse invalid_argument) | some range ↦ pure range ]

-- The size in GiB, ten where no bytes are required.
unfoldable pub requested_gib : CapacityRange → ℤ
requested_gib range =
    let bytes = range.required_bytes in
    round_up_size (if eqb_ℤ bytes (pos 0) then pos 10737418240 else bytes) gb_byte_size

-- What checkVolumeExist does with a share that has the name.
unfoldable pub compare_named : {S : Type 0} → ℤ → String → Share → M S (Option Share)
compare_named size proto v =
    if v.share_proto == proto && eqb_ℤ v.size size
    then pure (some v)
    else fail (refuse invalid_argument)

-- Its loop: only the first share that has the name is compared.
unfoldable pub first_named : {S : Type 0} → String → ℤ → String → List Share → M S (Option Share)
first_named name size proto [] = pure none
first_named name size proto (v ∷ rest) =
    let others = first_named name size proto rest in
    if v.name == name then compare_named size proto v else others

-- The loop of ValidateVolumeCapabilities, which reads the mode of an access mode that may be nil.
unfoldable pub allowed_modes : {S : Type 0} → List VolumeCapability → M S Bool
allowed_modes [] = pure true
allowed_modes (c ∷ rest) =
    let others = allowed_modes rest in
    elim c.access_mode [
      | none ↦ fail panic
      | some mode ↦ if same_mode mode multi_node_single_writer then pure false else others
    ]

module _ (C : SfsCloud) where
  open C use {State}

  unfoldable pub check_volume_exist : ServiceClient → String → ℤ → String → M State (Option Share)
  check_volume_exist client name size proto = do
    list ← map_error (wrapping internal) (C.shares_list client name)
    first_named name size proto list

  unfoldable pub share_or_new :
      ServiceClient → SfsDriver → String → ℤ → Option Share → M State Share
  share_or_new client d name size (some share) = pure share
  share_or_new client d name size none =
      create_sfs_share C client
        (record { share_proto = d.share_proto; size = size; name = name; description = "" })

  -- The end of CreateVolume: access is granted, also to a share that was there.
  unfoldable pub granted_volume :
      ServiceClient → SfsDriver → CreateVolumeRequest → ℤ → Share → M State Csi.Volume
  unfolding gb_to_bytes
  granted_volume client d req size share = do
    grant_access_to C client share.id d.cloud.vpc_id
    pure (record {
      volume_id = share.id;
      capacity_bytes = gb_to_bytes size;
      accessible_topology = [];
      volume_context = [];
      content_source = req.volume_content_source;
    })

  -- CreateVolume
  unfoldable pub create_sfs : SfsDriver → CreateVolumeRequest → M State Csi.Volume
  create_sfs d req = do
    client ← map_error (wrapping internal) (lift (sfs_client d.cloud))
    range ← sfs_create_validation req.name req.capacity_range
    let size = requested_gib range
    found ← check_volume_exist client req.name size d.share_proto
    share ← share_or_new client d req.name size found
    granted_volume client d req size share

  -- DeleteVolume
  unfoldable pub delete_sfs : SfsDriver → String → M State (Unit {0})
  delete_sfs d volume_id = if volume_id == "" then fail (refuse invalid_argument) else (do
    client ← map_error (wrapping internal) (lift (sfs_client d.cloud))
    map_error (wrapping internal) (delete_sfs_share C client volume_id))

  abbrev pub sfs_error : Error → Error
  sfs_error e = if is_default_404 e then refuse not_found else wrapping internal e

  unfoldable pub validate_sfs_capabilities :
      SfsDriver → String → List VolumeCapability → M State ValidateResponse
  validate_sfs_capabilities d volume_id [] = fail (refuse invalid_argument)
  validate_sfs_capabilities d volume_id (c ∷ rest) =
      if volume_id == "" then fail (refuse invalid_argument) else (do
        client ← map_error (wrapping internal) (lift (sfs_client d.cloud))
        map_error sfs_error (C.shares_get client volume_id)
        allowed ← allowed_modes (c ∷ rest)
        pure (record { confirmed = if allowed then some (c ∷ rest) else none; message = "" }))

  -- ControllerGetVolume, ControllerPublishVolume, ControllerUnpublishVolume, ListVolumes, CreateSnapshot,
  -- DeleteSnapshot, ListSnapshots, GetCapacity, ControllerExpandVolume
  unfoldable pub sfs_unsupported : {A : Type 0} → M State A
  sfs_unsupported = fail (refuse unimplemented)

  unfoldable pub sfs_capabilities : SfsDriver → M State (List ControllerCapability)
  sfs_capabilities d = pure d.cscap

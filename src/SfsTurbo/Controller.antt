-- ===== src/SfsTurbo/Controller.antt =====
-- The pure parts of the controller service of the SFS Turbo driver (pkg/sfsturbo/controllerserver.go),
-- and its calls in the children.
pub mod Calls
pub mod Bounds
pub mod Expansion
pub mod Search
pub mod Outcome
pub mod Safety
use huaweicloud_csi_driver.Prelude.{
  ℕ, String, ◌==◌, Bool, true, false, ◌&&◌, ◌||◌, not, Option, none, some, List, [], ◌∷◌, ◌++◌,
  length, if◌then◌else◌, ℤ, pos, ltb_ℤ, leb_ℤ, eqb_ℤ, ◌+ℤ◌, ◌-ℤ◌, wrap,
}
use huaweicloud_csi_driver.Prelude.Dict.{Dict, get}
use huaweicloud_csi_driver.Status.{
  Error, wrapping, refuse, is_not_found, internal, invalid_argument, out_of_range, not_found,
  unimplemented,
}
use huaweicloud_csi_driver.Effect.{M, pure, fail, lift, attempt, ◌>>=◌, ◌>>◌, map_error}
use huaweicloud_csi_driver.Utils.{round_up_size, gb_byte_size, gb_to_bytes}
use huaweicloud_csi_driver.Utils.Decimal.{atoi, itoa}
use huaweicloud_csi_driver.Common.{get_az_from_topology}
use huaweicloud_csi_driver.Csi
use huaweicloud_csi_driver.Csi.{
  AccessMode, same_mode, get_mode, access_unset, CapacityRange, VolumeCapability,
  VolumeContentSource, CreateVolumeRequest, Topology, ListRequest, ListVolumesEntry,
  ListVolumesResponse, ExpandRequest, ExpandResponse, ControllerGetVolumeResponse, ValidateResponse,
}
use huaweicloud_csi_driver.Evs.Driver.{ControllerCapability}
use huaweicloud_csi_driver.SfsTurbo.Sdk.{TurboCloud, Turbo, CreateOpts, ListOpts, PagedList}
use huaweicloud_csi_driver.SfsTurbo.Driver.{SfsTurboDriver}
use huaweicloud_csi_driver.SfsTurbo.Services.{
  get_share, list_total_shares, list_page_shares, create_share_completed, delete_share_completed,
  expand_share_completed, size_of,
}

abbrev pub zone_key : String
zone_key = "topology.sfsturbo.csi.huaweicloud.com/zone"

abbrev pub min_size_in_gib : ℤ
min_size_in_gib = pos 500

abbrev pub max_size_in_gib : ℤ
max_size_in_gib = pos 32768

abbrev pub expand_step_in_gib : ℤ
expand_step_in_gib = pos 100

abbrev pub turbo_volume : String → ℤ → Csi.Volume
turbo_volume id bytes = record {
  volume_id = id;
  capacity_bytes = bytes;
  accessible_topology = [];
  volume_context = [];
  content_source = none;
}

-- buildCreateVolumeResponse
unfoldable pub build_turbo_response : String → ℤ → CreateVolumeRequest → List Topology → Csi.Volume
unfolding gb_to_bytes
build_turbo_response id size req topology = record {
  volume_id = id;
  capacity_bytes = gb_to_bytes size;
  accessible_topology = topology;
  volume_context = [];
  content_source = req.volume_content_source;
}

-- The size that CreateVolume asks for, the minimum at least, or InvalidArgument above the maximum.
unfoldable pub share_size : {S : Type 0} → CapacityRange → M S ℤ
share_size range =
    let size = round_up_size range.required_bytes gb_byte_size in
    if ltb_ℤ max_size_in_gib size
    then fail (refuse invalid_argument)
    else pure (if ltb_ℤ size min_size_in_gib then min_size_in_gib else size)

-- The zone of the parameters, or else that of the topology, which the response then names.
unfoldable pub placement : {S : Type 0} → CreateVolumeRequest → M S (String × List Topology)
placement req =
    let zone = get req.parameters "availability" in
    let found = get_az_from_topology req.accessibility_requirements zone_key in
    if not (zone == "")
    then pure (zone, [])
    else if found == ""
    then fail (refuse invalid_argument)
    else pure (found, record { segments = (zone_key, found) ∷ [] } ∷ [])

unfoldable pub turbo_opts : SfsTurboDriver → CreateVolumeRequest → ℤ → String → CreateOpts
turbo_opts d req size zone =
    let share_type = get req.parameters "shareType" in
    record {
      name = req.name;
      share_proto = "NFS";
      share_type = if share_type == "" then "STANDARD" else share_type;
      size = size;
      availability_zone = zone;
      vpc_id = d.cloud.vpc_id;
      subnet_id = d.cloud.subnet_id;
      security_group_id = d.cloud.security_group_id;
      description = "";
    }

-- The options that a share has, at a size.
unfoldable pub opts_of : Turbo → ℤ → CreateOpts
opts_of v size = record {
  name = v.name;
  share_proto = v.share_proto;
  share_type = v.share_type;
  size = size;
  availability_zone = v.availability_zone;
  vpc_id = v.vpc_id;
  subnet_id = v.subnet_id;
  security_group_id = v.security_group_id;
  description = "";
}

-- reflect.DeepEqual on options
unfoldable pub same_opts : CreateOpts → CreateOpts → Bool
same_opts a b =
    a.name == b.name
    && (a.share_proto == b.share_proto
        && (a.share_type == b.share_type
            && (eqb_ℤ a.size b.size
                && (a.availability_zone == b.availability_zone
                    && (a.vpc_id == b.vpc_id
                        && (a.subnet_id == b.subnet_id
                            && (a.security_group_id == b.security_group_id
                                && a.description == b.description)))))))

-- The page's token: the offset behind it, while the count is not reached.
unfoldable pub next_page : ℤ → ℕ → ℤ → String
next_page offset found count =
    let current = wrap (offset +ℤ pos found) in if ltb_ℤ current count then itoa current else ""

abbrev offset_of : Option ℤ → ℤ
offset_of none = pos 0
offset_of (some n) = n

unfoldable pub page_opts : ListRequest → ListOpts
page_opts req = record { limit = req.max_entries; offset = offset_of (atoi req.starting_token) }

unfoldable pub turbo_create_validation :
    {S : Type 0} → String → Option CapacityRange → M S CapacityRange
turbo_create_validation name capacity_range =
    if name == ""
    then fail (refuse invalid_argument)
    else elim capacity_range [ none ↦ fail (refuse invalid_argument) | some range ↦ pure range ]

unfoldable pub turbo_expand_validation :
    {S : Type 0} → String → Option CapacityRange → M S CapacityRange
turbo_expand_validation volume_id capacity_range =
    if volume_id == ""
    then fail (refuse invalid_argument)
    else elim capacity_range [ none ↦ fail (refuse invalid_argument) | some range ↦ pure range ]

-- The size that an expansion asks the cloud for: a step more than the current one at least.
unfoldable pub expansion : {S : Type 0} → ℤ → ℤ → M S ℤ
expansion size current =
    let stepped = wrap (current +ℤ expand_step_in_gib) in
    if not (ltb_ℤ (wrap (size -ℤ current)) expand_step_in_gib)
    then pure size
    else if ltb_ℤ max_size_in_gib stepped
    then fail (refuse out_of_range)
    else pure stepped

-- The capabilities whose mode is one of the driver's, each by its mode alone.
unfoldable pub is_mode : AccessMode → List AccessMode → Bool
is_mode mode [] = false
is_mode mode (m ∷ modes) = same_mode m mode || is_mode mode modes

unfoldable pub confirmed_modes : List AccessMode → List VolumeCapability → List VolumeCapability
unfolding is_mode
confirmed_modes modes [] = []
confirmed_modes modes (c ∷ rest) =
    let others = confirmed_modes modes rest in
    if is_mode (get_mode c) modes
    then record { access_mode = some (get_mode c); access_type = access_unset } ∷ others
    else others

unfoldable pub turbo_error : Error → Error
unfolding is_not_found
turbo_error e = if is_not_found e then wrapping not_found e else wrapping internal e

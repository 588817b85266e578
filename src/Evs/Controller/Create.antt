-- ===== src/Evs/Controller/Create.antt =====
-- CreateVolume of pkg/evs/controllerserver.go, with the helpers that it calls.
pub mod Safety
pub mod Outcome
pub mod Taken
pub mod Metadata
use huaweicloud_csi_driver.Prelude.{
  String, ◌==◌, Bool, true, false, ◌&&◌, ◌||◌, not, Option, none, some, List, [], ◌∷◌,
  if◌then◌else◌, ℤ, pos, ltb_ℤ,
}
use huaweicloud_csi_driver.Prelude.Dict.{Dict, lookup, insert, get}
use huaweicloud_csi_driver.Status.{
  Error, wrapping, refuse, is_not_found, internal, invalid_argument, not_found,
}
use huaweicloud_csi_driver.Effect.{M, pure, fail, attempt, ◌>>=◌, ◌>>◌, map_error}
use huaweicloud_csi_driver.Utils.{round_up_size, gb_byte_size, gb_to_bytes}
use huaweicloud_csi_driver.Utils.Decimal.{atoi}
use huaweicloud_csi_driver.Common.{get_az_from_topology}
use huaweicloud_csi_driver.Config.{CloudCredentials}
use huaweicloud_csi_driver.Csi
use huaweicloud_csi_driver.Csi.{
  CapacityRange, VolumeCapability, VolumeContentSource, source_unset, source_snapshot,
  source_volume, CreateVolumeRequest,
}
use huaweicloud_csi_driver.Evs.Sdk.{Cloud, Volume, CreateOpts}
use huaweicloud_csi_driver.Evs.Driver.{EvsDriver}
use huaweicloud_csi_driver.Evs.Services.Volumes.{
  check_volume_exists, create_cinder_completed, create_volume_completed, get_volume,
}
use huaweicloud_csi_driver.Evs.Services.Snapshots.{get_snapshot}

abbrev pub topology_key : String
topology_key = "topology.evs.csi.huaweicloud.com/zone"

unfoldable pub create_volume_validation :
    {S : Type 0} → String → List VolumeCapability → M S (Unit {0})
create_volume_validation name capabilities =
    if name == ""
    then fail (refuse invalid_argument)
    else elim capabilities [ [] ↦ fail (refuse invalid_argument) | _ ∷ _ ↦ pure tt ]

-- defaultSizeGB without a range, and the required bytes rounded up with one.
unfoldable pub requested_gb : Option CapacityRange → ℤ
requested_gb none = pos 10
requested_gb (some range) = round_up_size range.required_bytes gb_byte_size

unfoldable pub parsed : {S : Type 0} → Option ℤ → M S ℤ
parsed none = fail (refuse invalid_argument)
parsed (some n) = pure n

-- `Atoi` of a parameter that is set, and 0 for one that is not.
unfoldable pub numeric_parameter : {S : Type 0} → String → M S ℤ
numeric_parameter value = if value == "" then pure (pos 0) else parsed (atoi value)

unfoldable pub get_io_and_through : {S : Type 0} → Dict String → M S (ℤ × ℤ)
unfolding numeric_parameter
get_io_and_through parameters = do
  iops ← numeric_parameter (get parameters "iops")
  throughput ← numeric_parameter (get parameters "throughput")
  pure (iops, throughput)

-- The loop over the tags: each one that is a parameter becomes metadata.
unfoldable pub copy_tags : List String → Dict String → Dict String → Dict String
copy_tags [] parameters metadata = metadata
copy_tags (key ∷ keys) parameters metadata =
    copy_tags keys parameters
      (elim (lookup key parameters) [ none ↦ metadata | some v ↦ insert key v metadata ])

-- PvcNameTag, PvcNsTag, PvNameKey
abbrev pub tags : List String
tags =
    "csi.storage.k8s.io/pvc/name" ∷ "csi.storage.k8s.io/pvc/namespace"
    ∷ "csi.storage.k8s.io/pv/name" ∷ []

unfoldable pub parse_metadata : EvsDriver → Dict String → String → Dict String
unfolding copy_tags
parse_metadata d parameters snapshot_id =
    let scsi = get parameters "scsi" in
    let kms_id = get parameters "kmsId" in
    let marked : Dict String =
      ("evs.csi.huaweicloud.com/nodeId", d.node_id) ∷ ("create_for_volume_id", "true") ∷ [] in
    let passed =
      if snapshot_id == "" && not (scsi == "") && (scsi == "true" || scsi == "false")
      then insert "hw:passthrough" scsi marked
      else marked in
    let keyed =
      if snapshot_id == "" && not (kms_id == "")
      then insert "__system__encrypted" "1" (insert "__system__cmkid" kms_id passed)
      else passed in
    copy_tags tags parameters keyed

-- The source that the response names: a volume's where it has both.
abbrev content_source_of : Volume → Option VolumeContentSource
content_source_of vol =
    let from_snapshot : Option VolumeContentSource =
      if vol.snapshot_id == "" then none else some (source_snapshot vol.snapshot_id) in
    if vol.source_vol_id == "" then from_snapshot else some (source_volume vol.source_vol_id)

unfoldable pub build_create_volume_response : Volume → String → Csi.Volume
unfolding gb_to_bytes
build_create_volume_response vol dss_id = record {
  volume_id = vol.id;
  capacity_bytes = gb_to_bytes vol.size;
  accessible_topology = record { segments = (topology_key, vol.availability_zone) ∷ [] } ∷ [];
  volume_context = if dss_id == "" then [] else ("dedicated_storage_id", dss_id) ∷ [];
  content_source = content_source_of vol;
}

-- The zone of the parameters, or else one of the topology; `get_az_from_topology` is also what
-- getAZFromTopology of this file computes.
unfoldable pub volume_az : CreateVolumeRequest → String
volume_az req =
    let zone = get req.parameters "availability" in
    if zone == "" then get_az_from_topology req.accessibility_requirements topology_key else zone

unfoldable pub is_tuned : String → Bool
is_tuned volume_type = volume_type == "GPSSD2" || volume_type == "ESSD2"

-- The IOPS and throughput of the volume types that have them.
unfoldable pub tuning : {S : Type 0} → Dict String → M S (ℤ × ℤ)
unfolding is_tuned
tuning parameters =
    if is_tuned (get parameters "type") then get_io_and_through parameters else pure (pos 0, pos 0)

module _ (C : Cloud) where
  open C use {State}

  unfoldable pub snapshot_error : Error → Error
  unfolding is_not_found
  snapshot_error e = if is_not_found e then refuse not_found else wrapping internal e

  unfoldable pub check_snapshot_exists :
      CloudCredentials → Option VolumeContentSource → M State String
  unfolding snapshot_error
  check_snapshot_exists cc (some (source_snapshot id)) =
      attempt (get_snapshot C cc id) (λ e. fail (snapshot_error e)) (λ _. pure id)
  check_snapshot_exists cc _ = pure ""

  -- The request that is sent for a new volume.
  unfoldable pub create_opts : EvsDriver → CreateVolumeRequest → String → ℤ × ℤ → CreateOpts
  create_opts d req snapshot_id io = record {
    volume = record {
      name = req.name;
      size = requested_gb req.capacity_range;
      volume_type = get req.parameters "type";
      availability_zone = volume_az req;
      snapshot_id = snapshot_id;
      metadata = parse_metadata d req.parameters snapshot_id;
      iops = io.0;
      throughput = io.1;
    };
    storage_id = get req.parameters "dssId";
  }

  -- Below 10 GB the volume is created by the cinder request.
  unfoldable pub create_by_size : CloudCredentials → CreateOpts → M State String
  create_by_size cc opts =
      if ltb_ℤ opts.volume.size (pos 10)
      then create_cinder_completed C cc opts
      else create_volume_completed C cc opts

  -- What follows where no volume has the name.
  unfoldable pub create_new : EvsDriver → CreateVolumeRequest → M State Csi.Volume
  create_new d req = do
    let cc = d.cloud_credentials
    snapshot_id ← check_snapshot_exists cc req.volume_content_source
    io ← tuning req.parameters
    volume_id ← map_error (wrapping internal) (create_by_size cc (create_opts d req snapshot_id io))
    volume ← get_volume C cc volume_id
    pure (build_create_volume_response volume (get req.parameters "dssId"))

  -- A volume that has the name is returned as it is.
  unfoldable pub create_or_reuse :
      EvsDriver → CreateVolumeRequest → Option Volume → M State Csi.Volume
  create_or_reuse d req (some vol) =
      pure (build_create_volume_response vol (get req.parameters "dssId"))
  create_or_reuse d req none = create_new d req

  unfoldable pub create_volume : EvsDriver → CreateVolumeRequest → M State Csi.Volume
  create_volume d req = do
    create_volume_validation req.name req.volume_capabilities
    found ←
        map_error (wrapping internal)
          (check_volume_exists C d.cloud_credentials req.name (requested_gb req.capacity_range))
    create_or_reuse d req found

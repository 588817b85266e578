-- ===== src/Node/Metadatas.antt =====
-- pkg/utils/metadatas/metadata.go. The config drive is mounted and read on the host: it is a part of Host.
pub mod Order
pub mod Cache
use huaweicloud_csi_driver.Prelude.{
  ℕ, suc, String, ◌<>◌, ◌==◌, Bool, true, false, ◌&&◌, ◌||◌, Option, none, some, List, [], ◌∷◌,
  length, ltb, eqb, if◌then◌else◌,
}
use huaweicloud_csi_driver.Status.{Error, Result, ok, err, plain, text}
use huaweicloud_csi_driver.Effect.{M, pure, fail, lift, attempt, ◌>>=◌, ◌>>◌, map_error}
use huaweicloud_csi_driver.Utils.Text.{split_commas, trim_space}
use huaweicloud_csi_driver.Node.Host.{Host, Metadata, DeviceMetadata, HttpResponse}

-- IMetadata
pub record IMetadata (S : Type 0) : Type 0 where
  pub get_instance_id : M S String
  pub get_availability_zone : M S String

-- parseMetadata, of a decoded document
unfoldable pub parse_instance_metadata : Result Metadata → Result Metadata
parse_instance_metadata (err e) = err e
parse_instance_metadata (ok metadata) =
    if metadata.uuid == ""
    then err (plain "invalid OpenStack metadata, got empty uuid")
    else ok metadata

abbrev metadata_url : String
metadata_url = "http://169.254.169.254/openstack/latest/meta_data.json"

abbrev pub not_valid : String → Error
not_valid id = plain (id <> " is not a valid metadata search order option.")

abbrev pub is_search_option : String → Bool
is_search_option id = id == "configDrive" || id == "metadataService"

-- The loop of CheckMetadataSearchOrder.
unfoldable pub check_elements : List String → Result (Unit {0})
unfolding trim_space
check_elements [] = ok tt
check_elements (id ∷ rest) =
    let others = check_elements rest in
    if is_search_option (trim_space id) then others else err (not_valid (trim_space id))

-- CheckMetadataSearchOrder
unfoldable pub check_metadata_search_order : String → Result (Unit {0})
unfolding check_elements split_commas
check_metadata_search_order order =
    if order == ""
    then err (plain "Value cannot be empty")
    else if ltb 2 (length (split_commas order))
    then err (plain "Value cannot contain more than 2 elements")
    else check_elements (split_commas order)

module _ {S : Type 0} (h : Host S) where
  unfoldable pub get_from_metadata_service : M S Metadata
  unfolding parse_instance_metadata
  get_from_metadata_service = do
    resp ← map_error (λ e. plain (text e)) (h.http_get metadata_url)
    if eqb resp.status_code 200
        then lift (parse_instance_metadata resp.body)
        else fail (plain "unexpected status code when reading metadata")

  unfoldable pub get_from_config_drive : M S Metadata
  unfolding parse_instance_metadata
  get_from_config_drive = do document ← h.config_drive; lift (parse_instance_metadata (ok document))

  -- The loop of GetDevicePath over the devices: a device that is named by more or fewer paths than one is
  -- passed over.
  unfoldable pub path_of_device : String → List DeviceMetadata → M S String
  path_of_device volume_id [] = pure ""
  path_of_device volume_id (device ∷ rest) =
      let others = path_of_device volume_id rest in
      if device.type == "disk" && device.serial == volume_id
      then attempt (h.glob ("/dev/disk/by-path/*-" <> (device.bus <> ("-" <> device.address))))
          (λ e. pure "")
          (λ paths. elim paths [
            | [] ↦ others
            | path ∷ more ↦ elim more [ [] ↦ pure path | other ∷ others' ↦ others ]
          ])
      else others

  -- GetDevicePath
  unfoldable pub metadata_device_path : String → M S String
  metadata_device_path volume_id =
      attempt get_from_metadata_service (λ e. pure "")
        (λ metadata. path_of_device volume_id metadata.devices)

  -- The switch of Get, for one element of the search order.
  unfoldable pub get_from : String → M S Metadata
  get_from id =
      if id == "configDrive"
      then get_from_config_drive
      else if id == "metadataService"
      then get_from_metadata_service
      else fail (not_valid id)

  -- The loop of Get: the first source that answers is taken, and otherwise the last error is returned.
  unfoldable pub get_in_order : Error → List String → M S Metadata
  unfolding trim_space
  get_in_order last [] = fail last
  get_in_order last (id ∷ rest) = attempt (get_from (trim_space id)) (λ e. get_in_order e rest) pure

  abbrev pub keep_in_cache : Metadata → M S Metadata
  keep_in_cache metadata s = (ok metadata, h.set_metadata_cache metadata s)

  -- Get, for what the cache holds
  unfoldable pub cached_or_read : String → Option Metadata → M S Metadata
  unfolding split_commas
  cached_or_read order (some metadata) = pure metadata
  cached_or_read order none = get_in_order (plain "") (split_commas order) >>= keep_in_cache

  -- Get
  unfoldable pub get_metadata : String → M S Metadata
  get_metadata order s = cached_or_read order (h.metadata_cache s) s

  -- metadataService as an IMetadata
  unfoldable pub metadata_service : String → IMetadata S
  metadata_service order = record {
    get_instance_id = (do metadata ← get_metadata order; pure metadata.uuid);
    get_availability_zone = (do metadata ← get_metadata order; pure metadata.availability_zone);
  }

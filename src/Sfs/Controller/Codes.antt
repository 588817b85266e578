-- ===== src/Sfs/Controller/Codes.antt =====
-- The status codes of CreateVolume and DeleteVolume of pkg/sfs/controllerserver.go.
use huaweicloud_csi_driver.Prelude.{refl, inl, inr, String, Option, none, some, List, [], ◌∷◌, ℤ}
use huaweicloud_csi_driver.Status.{Code, Error, status, refuse, invalid_argument, internal}
use huaweicloud_csi_driver.Effect.Raises.{OneOf, Raises, raises_rules, Raises-if}
use huaweicloud_csi_driver.Config.{ServiceClient}
use huaweicloud_csi_driver.Csi.{CapacityRange, CreateVolumeRequest}
use huaweicloud_csi_driver.Sfs.Sdk.{SfsCloud, Share}
use huaweicloud_csi_driver.Sfs.Driver.{SfsDriver, sfs_client}
use huaweicloud_csi_driver.Sfs.Shares.{create_sfs_share, grant_access_to}
use huaweicloud_csi_driver.Sfs.Controller.{
  sfs_create_validation, compare_named, first_named, check_volume_exist, share_or_new,
  granted_volume, create_sfs, delete_sfs,
}

-- The two codes.
abbrev pub two_codes : List Code
two_codes = invalid_argument ∷ internal ∷ []

module _ (Q : Error → Type 0) (q_internal : (t : String) → Q (status internal t))
    (q_invalid : Q (refuse invalid_argument)) where
  validation-Codes :
      {S : Type 0} (name : String) (range : Option CapacityRange)
      → Raises {S = S} Q (sfs_create_validation name range)
  unfolding sfs_create_validation
  validation-Codes name none = search (raises_rules, q_invalid)
  validation-Codes name (some range) = search (raises_rules, q_invalid)

  compare_named-Codes :
      {S : Type 0} (size : ℤ) (proto : String) (v : Share)
      → Raises {S = S} Q (compare_named size proto v)
  unfolding compare_named
  compare_named-Codes size proto v = search (raises_rules, q_invalid)

  first_named-Codes :
      {S : Type 0} (name : String) (size : ℤ) (proto : String) (list : List Share)
      → Raises {S = S} Q (first_named name size proto list)
  unfolding first_named
  first_named-Codes name size proto [] = search raises_rules
  first_named-Codes name size proto (v ∷ rest) =
      Raises-if _ _ _ (compare_named-Codes size proto v) (first_named-Codes name size proto rest)

  module _ (C : SfsCloud) (d : SfsDriver) where
    share_or_new-Codes :
        (client : ServiceClient) (name : String) (size : ℤ) (found : Option Share)
        → Raises Q (share_or_new C client d name size found)
    unfolding share_or_new create_sfs_share
    share_or_new-Codes client name size none = search (raises_rules, q_internal)
    share_or_new-Codes client name size (some share) = search raises_rules

    create_sfs-Codes : (req : CreateVolumeRequest) → Raises Q (create_sfs C d req)
    unfolding create_sfs sfs_client check_volume_exist granted_volume grant_access_to
    create_sfs-Codes req =
        search (raises_rules, q_internal, validation-Codes, first_named-Codes, share_or_new-Codes)
          depth 10

    delete_sfs-Codes : (volume_id : String) → Raises Q (delete_sfs C d volume_id)
    unfolding delete_sfs sfs_client
    delete_sfs-Codes volume_id = search (raises_rules, q_internal, q_invalid) depth 8

-- CreateVolume and DeleteVolume fail with InvalidArgument or Internal alone, whatever the cloud answers.
-- So CreateVolume never answers AlreadyExists, and DeleteVolume never NotFound.
pub sfs_codes :
    (C : SfsCloud) (d : SfsDriver) (req : CreateVolumeRequest) (volume_id : String)
    → Raises (OneOf two_codes) (create_sfs C d req)
      × Raises (OneOf two_codes) (delete_sfs C d volume_id)
sfs_codes C d req volume_id = (
  create_sfs-Codes (OneOf two_codes) (λ t. inr (inl refl)) (inl refl) C d req,
  delete_sfs-Codes (OneOf two_codes) (λ t. inr (inl refl)) (inl refl) C d volume_id,
)

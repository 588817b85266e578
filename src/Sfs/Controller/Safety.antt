-- ===== src/Sfs/Controller/Safety.antt =====
-- What CreateVolume of pkg/sfs/controllerserver.go sends.
use huaweicloud_csi_driver.Prelude.{String, Option, none, some, List, [], ◌∷◌, ℤ}
use huaweicloud_csi_driver.Effect.Keeps.{
  Keeps, keeps_rules, Keeps-if, Keeps-attempt, Keeps-fail, Keeps-pure,
}
use huaweicloud_csi_driver.Config.{ServiceClient}
use huaweicloud_csi_driver.Csi.{CapacityRange, CreateVolumeRequest}
use huaweicloud_csi_driver.Sfs.Sdk.{SfsCloud, IsWaiter, Share, CreateOpts}
use huaweicloud_csi_driver.Sfs.Driver.{SfsDriver}
use huaweicloud_csi_driver.Sfs.Shares.{
  with_description, access_to_vpc, has_status, wait_for_share_status, create_sfs_share,
  grant_access_to,
}
use huaweicloud_csi_driver.Sfs.Controller.{
  sfs_create_validation, compare_named, first_named, check_volume_exist, share_or_new,
  granted_volume, create_sfs,
}

module _ {S : Type 0} {P : S → Type 0} where
  validation-Keeps :
      (name : String) (range : Option CapacityRange) → Keeps P (sfs_create_validation name range)
  unfolding sfs_create_validation
  validation-Keeps name none = search keeps_rules
  validation-Keeps name (some range) = search keeps_rules

  compare_named-Keeps :
      (size : ℤ) (proto : String) (v : Share) → Keeps P (compare_named size proto v)
  unfolding compare_named
  compare_named-Keeps size proto v = search keeps_rules

  first_named-Keeps :
      (name : String) (size : ℤ) (proto : String) (list : List Share)
      → Keeps P (first_named name size proto list)
  unfolding first_named
  first_named-Keeps name size proto [] = search keeps_rules
  first_named-Keeps name size proto (v ∷ rest) =
      Keeps-if _ _ _ (compare_named-Keeps size proto v) (first_named-Keeps name size proto rest)

module _ (C : SfsCloud) (d : SfsDriver) (lawful : IsWaiter C.waiter) {P : C.State → Type 0}
    (gets : (client : ServiceClient) (id : String) → Keeps P (C.shares_get client id))
    (lists : (client : ServiceClient) (name : String) → Keeps P (C.shares_list client name)) where
  wait-Keeps :
      (client : ServiceClient) (id desired : String)
      → Keeps P (wait_for_share_status C client id desired)
  unfolding wait_for_share_status has_status
  wait-Keeps client id desired = lawful.polls C.State P 3 _ (search (keeps_rules, gets))

  create_sfs_share-Keeps :
      (client : ServiceClient) (opts : CreateOpts)
      → Keeps P (C.shares_create client (with_description opts))
      → Keeps P (create_sfs_share C client opts)
  unfolding create_sfs_share
  create_sfs_share-Keeps client opts h =
      Keeps-attempt _ _ _ (search (keeps_rules, h)) Keeps-fail (λ share.
        Keeps-attempt _ _ _
          (Keeps-attempt _ _ _ (wait-Keeps client share.id "available") (λ e. Keeps-fail _)
            Keeps-pure)
          Keeps-fail (λ _. Keeps-pure share))

  share_or_new-Keeps :
      (client : ServiceClient) (name : String) (size : ℤ) (found : Option Share)
      → Keeps P (
          C.shares_create client (
            with_description
              (record { share_proto = d.share_proto; size = size; name = name; description = "" })))
      → Keeps P (share_or_new C client d name size found)
  unfolding share_or_new
  share_or_new-Keeps client name size none h = create_sfs_share-Keeps client _ h
  share_or_new-Keeps client name size (some share) h = search keeps_rules

  -- CreateVolume changes nothing but by a request that creates a share of the driver's protocol under the
  -- name that it was asked for, and by requests that grant the driver's VPC access to a share.
  pub create_sfs-Keeps :
      (req : CreateVolumeRequest)
      → ((client : ServiceClient) (size : ℤ)
          → Keeps P (
              C.shares_create client (
                with_description (record {
                  share_proto = d.share_proto;
                  size = size;
                  name = req.name;
                  description = "";
                }))))
      → ((client : ServiceClient) (id : String)
          → Keeps P (C.grant_access client id (access_to_vpc d.cloud.vpc_id)))
      → Keeps P (create_sfs C d req)
  unfolding create_sfs check_volume_exist granted_volume grant_access_to
  create_sfs-Keeps req h granted =
      search
        (keeps_rules, validation-Keeps, lists, first_named-Keeps, share_or_new-Keeps, h, granted)
        depth 10

-- ===== src/Sfs/Shares.antt =====
-- pkg/sfs/share.go
use huaweicloud_csi_driver.Prelude.{String, ◌==◌, Bool, if◌then◌else◌}
use huaweicloud_csi_driver.Status.{Error, wrapping, is_default_404, internal}
use huaweicloud_csi_driver.Effect.{M, pure, fail, attempt, ◌>>=◌, ◌>>◌, map_error}
use huaweicloud_csi_driver.Config.{ServiceClient}
use huaweicloud_csi_driver.Sfs.Sdk.{SfsCloud, Share, CreateOpts, GrantAccessOpts}

-- The options as createShare sends them.
unfoldable pub with_description : CreateOpts → CreateOpts
with_description opts = record {
  share_proto = opts.share_proto;
  size = opts.size;
  name = opts.name;
  description = "provisioned-by=sfs.csi.huaweicloud.org";
}

-- Access for a VPC, as grantAccess asks for it.
abbrev pub access_to_vpc : String → GrantAccessOpts
access_to_vpc vpc = record { access_level = "rw"; access_type = "cert"; access_to = vpc }

module _ (C : SfsCloud) (client : ServiceClient) where
  open C use {State}

  -- The closure of waitForShareStatus; getShare is the call itself.
  unfoldable pub has_status : String → String → M State Bool
  has_status id desired = do share ← C.shares_get client id; pure (share.status == desired)

  unfoldable pub wait_for_share_status : String → String → M State (Unit {0})
  wait_for_share_status id desired = C.waiter.wait_for State 3 (has_status id desired)

  unfoldable pub create_sfs_share : CreateOpts → M State Share
  create_sfs_share opts = do
    share ← map_error (wrapping internal) (C.shares_create client (with_description opts))
    map_error (wrapping internal) (wait_for_share_status share.id "available")
    pure share

  -- A missing share is taken to be deleted.
  abbrev pub unless_missing : Error → M State (Unit {0})
  unless_missing e = if is_default_404 e then pure tt else fail e

  unfoldable pub delete_sfs_share : String → M State (Unit {0})
  delete_sfs_share id = attempt (C.shares_delete client id) unless_missing pure

  unfoldable pub grant_access_to : String → String → M State (Unit {0})
  grant_access_to id vpc =
      map_error (wrapping internal) (C.grant_access client id (access_to_vpc vpc))

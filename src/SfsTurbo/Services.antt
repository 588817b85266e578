-- ===== src/SfsTurbo/Services.antt =====
-- pkg/sfsturbo/services/volumes.go
pub mod Effects
use huaweicloud_csi_driver.Prelude.{String, ◌==◌, Bool, true, false, List, if◌then◌else◌, ℤ, eqb_ℤ}
use huaweicloud_csi_driver.Status.{Error, Result, wrapping, refuse, is_not_found, internal}
use huaweicloud_csi_driver.Effect.{M, pure, fail, lift, attempt, ◌>>=◌, ◌>>◌, map_error}
use huaweicloud_csi_driver.Common.{Backoff, wait_for_completed}
use huaweicloud_csi_driver.Config.{CloudCredentials}
use huaweicloud_csi_driver.Config.Access.{get_sfs_turbo_v1_client}
use huaweicloud_csi_driver.SfsTurbo.Sdk.{TurboCloud, Turbo, CreateOpts, ListOpts, PagedList}

-- DefaultInitDelay, DefaultFactor, DefaultSteps of this package
abbrev pub creation_backoff : Backoff
creation_backoff = record { duration = 15; factor = 102; steps = 30 }

-- The options as CreateShare sends them.
unfoldable pub described : CreateOpts → CreateOpts
described opts = record {
  name = opts.name;
  share_proto = opts.share_proto;
  share_type = opts.share_type;
  size = opts.size;
  availability_zone = opts.availability_zone;
  vpc_id = opts.vpc_id;
  subnet_id = opts.subnet_id;
  security_group_id = opts.security_group_id;
  description = "provisioned-by=sfsturbo.csi.huaweicloud.org";
}

module _ (C : TurboCloud) where
  open C use {State}

  -- A size as a text, as an integer: what follows the point is cut off.
  unfoldable pub size_of : String → M State ℤ
  size_of size = do
    number ← map_error (λ e. refuse internal) (lift (C.float64.parse_float size))
    pure (C.float64.to_int number)

module _ (C : TurboCloud) (credentials : CloudCredentials) where
  open C use {State}

  unfoldable pub get_share : String → M State Turbo
  get_share id = do client ← lift (get_sfs_turbo_v1_client credentials); C.shares_get client id

  unfoldable pub create_share : CreateOpts → M State String
  create_share opts = do
    client ← lift (get_sfs_turbo_v1_client credentials)
    map_error (wrapping internal) (C.shares_create client (described opts))

  -- The closure of WaitForShareAvailable.
  unfoldable pub available_condition : String → M State Bool
  available_condition id =
      attempt (get_share id) (λ e. fail (wrapping internal e))
        λ share.
          if share.status == "200"
          then pure true
          else if share.status == "100"
          then pure false
          else fail (refuse internal)

  unfoldable pub wait_for_share_available : String → M State (Unit {0})
  wait_for_share_available id =
      C.timer.exponential_backoff State creation_backoff (available_condition id)

  unfoldable pub create_share_completed : CreateOpts → M State String
  create_share_completed opts = do id ← create_share opts; wait_for_share_available id; pure id

  unfoldable pub delete_share : String → M State (Unit {0})
  delete_share id = do
    client ← lift (get_sfs_turbo_v1_client credentials)
    C.shares_delete client id

  abbrev pub gone_or_error : Error → M State Bool
  gone_or_error e = if is_not_found e then pure true else fail (wrapping internal e)

  -- The closure of WaitForShareDeleted: it waits for the share to be missing.
  unfoldable pub deleted_condition : String → M State Bool
  unfolding is_not_found
  deleted_condition id = attempt (get_share id) gone_or_error (λ share. pure false)

  unfoldable pub wait_for_share_deleted : String → M State (Unit {0})
  wait_for_share_deleted id = wait_for_completed C.timer (deleted_condition id)

  -- What DeleteShareCompleted does where the share is there.
  unfoldable pub delete_present : String → M State (Unit {0})
  delete_present id = do map_error (wrapping internal) (delete_share id); wait_for_share_deleted id

  abbrev pub absent_or_error : Error → M State (Unit {0})
  absent_or_error e = if is_not_found e then pure tt else fail (wrapping internal e)

  unfoldable pub delete_share_completed : String → M State (Unit {0})
  unfolding is_not_found
  delete_share_completed id = attempt (get_share id) absent_or_error (λ share. delete_present id)

  unfoldable pub list_total_shares : M State (List Turbo)
  list_total_shares = do
    client ← lift (get_sfs_turbo_v1_client credentials)
    map_error (wrapping internal) (C.shares_list client)

  unfoldable pub list_page_shares : ListOpts → M State PagedList
  list_page_shares opts = do
    client ← lift (get_sfs_turbo_v1_client credentials)
    map_error (wrapping internal) (C.shares_list_page client opts)

  unfoldable pub expand_share : String → ℤ → M State (Unit {0})
  expand_share id new_size = do
    client ← lift (get_sfs_turbo_v1_client credentials)
    map_error (wrapping internal) (C.shares_expand client id new_size)

  -- The closure of WaitForShareExpanded.
  unfoldable pub expanded_condition : String → M State Bool
  expanded_condition id =
      attempt (get_share id) (λ e. fail (wrapping internal e))
        λ share.
          if share.sub_status == "221"
          then pure true
          else if share.sub_status == "121"
          then pure false
          else fail (refuse internal)

  unfoldable pub wait_for_share_expanded : String → M State (Unit {0})
  wait_for_share_expanded id = wait_for_completed C.timer (expanded_condition id)

  unfoldable pub expand_share_completed : String → ℤ → M State (Unit {0})
  expand_share_completed id new_size = do
    expand_share id new_size
    wait_for_share_expanded id
    share ← get_share id
    size ← size_of C share.size
    if eqb_ℤ size new_size then pure tt else fail (refuse internal)

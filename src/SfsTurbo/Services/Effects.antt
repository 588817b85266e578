-- ===== src/SfsTurbo/Services/Effects.antt =====
-- Which calls of the cloud the SFS Turbo services make: a predicate that the queries keep is kept by the
-- services that only query, and by those that change something if it is kept by that one request.
use huaweicloud_csi_driver.Prelude.{String, ℤ}
use huaweicloud_csi_driver.Effect.Keeps.{Keeps, keeps_rules}
use huaweicloud_csi_driver.Common.{IsTimer}
use huaweicloud_csi_driver.Common.Waiting.{Keeps-wait_for_completed, Keeps-exponential_backoff}
use huaweicloud_csi_driver.Config.{CloudCredentials, ServiceClient}
use huaweicloud_csi_driver.SfsTurbo.Sdk.{TurboCloud, CreateOpts, ListOpts}
use huaweicloud_csi_driver.SfsTurbo.Services.{
  size_of, described, get_share, create_share, available_condition, wait_for_share_available,
  create_share_completed, delete_share, deleted_condition, wait_for_share_deleted, delete_present,
  delete_share_completed, list_total_shares, list_page_shares, expand_share, expanded_condition,
  wait_for_share_expanded, expand_share_completed,
}

-- A predicate that no query of the cloud changes.
pub record SharesKeep (C : TurboCloud) (P : C.State → Type 0) : Type 0 where
  pub shares_get : (client : ServiceClient) (id : String) → Keeps P (C.shares_get client id)
  pub shares_list : (client : ServiceClient) → Keeps P (C.shares_list client)
  pub shares_list_page :
      (client : ServiceClient) (opts : ListOpts) → Keeps P (C.shares_list_page client opts)

module _ (C : TurboCloud) {P : C.State → Type 0} where
  pub size_of-Keeps : (size : String) → Keeps P (size_of C size)
  unfolding size_of
  size_of-Keeps size = search keeps_rules

module _ (C : TurboCloud) (credentials : CloudCredentials) (lawful : IsTimer C.timer)
    {P : C.State → Type 0} (queries : SharesKeep C P) where
  pub get_share-Keeps : (id : String) → Keeps P (get_share C credentials id)
  unfolding get_share
  get_share-Keeps id = search (keeps_rules, queries.shares_get)

  pub list_total_shares-Keeps : Keeps P (list_total_shares C credentials)
  unfolding list_total_shares
  list_total_shares-Keeps = search (keeps_rules, queries.shares_list)

  pub list_page_shares-Keeps : (opts : ListOpts) → Keeps P (list_page_shares C credentials opts)
  unfolding list_page_shares
  list_page_shares-Keeps opts = search (keeps_rules, queries.shares_list_page)

  available_condition-Keeps : (id : String) → Keeps P (available_condition C credentials id)
  unfolding available_condition
  available_condition-Keeps id = search (keeps_rules, get_share-Keeps)

  deleted_condition-Keeps : (id : String) → Keeps P (deleted_condition C credentials id)
  unfolding deleted_condition
  deleted_condition-Keeps id = search (keeps_rules, get_share-Keeps)

  expanded_condition-Keeps : (id : String) → Keeps P (expanded_condition C credentials id)
  unfolding expanded_condition
  expanded_condition-Keeps id = search (keeps_rules, get_share-Keeps)

  wait_for_share_available-Keeps :
      (id : String) → Keeps P (wait_for_share_available C credentials id)
  unfolding wait_for_share_available
  wait_for_share_available-Keeps id =
      Keeps-exponential_backoff C.timer _ lawful (available_condition-Keeps id) 15 102 30

  wait_for_share_deleted-Keeps : (id : String) → Keeps P (wait_for_share_deleted C credentials id)
  unfolding wait_for_share_deleted
  wait_for_share_deleted-Keeps id =
      Keeps-wait_for_completed C.timer _ lawful (deleted_condition-Keeps id)

  wait_for_share_expanded-Keeps : (id : String) → Keeps P (wait_for_share_expanded C credentials id)
  unfolding wait_for_share_expanded
  wait_for_share_expanded-Keeps id =
      Keeps-wait_for_completed C.timer _ lawful (expanded_condition-Keeps id)

  pub create_share_completed-Keeps :
      (opts : CreateOpts)
      → ((client : ServiceClient) → Keeps P (C.shares_create client (described opts)))
      → Keeps P (create_share_completed C credentials opts)
  unfolding create_share_completed create_share
  create_share_completed-Keeps opts h = search (keeps_rules, h, wait_for_share_available-Keeps)

  pub delete_share_completed-Keeps :
      (id : String)
      → ((client : ServiceClient) → Keeps P (C.shares_delete client id))
      → Keeps P (delete_share_completed C credentials id)
  unfolding delete_share_completed delete_present delete_share
  delete_share_completed-Keeps id h =
      search (keeps_rules, h, get_share-Keeps, wait_for_share_deleted-Keeps) depth 8

  pub expand_share_completed-Keeps :
      (id : String) (new_size : ℤ)
      → ((client : ServiceClient) → Keeps P (C.shares_expand client id new_size))
      → Keeps P (expand_share_completed C credentials id new_size)
  unfolding expand_share_completed expand_share
  expand_share_completed-Keeps id new_size h =
      search (keeps_rules, h, get_share-Keeps, wait_for_share_expanded-Keeps, size_of-Keeps) depth 8

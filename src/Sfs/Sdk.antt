-- ===== src/Sfs/Sdk.antt =====
-- The cloud as the SFS driver sees it: the SDK's data, and its calls as an interface. The calls are those
-- of github.com/chnsz/golangsdk.
use huaweicloud_csi_driver.Prelude.{ℕ, ◌≡◌, String, Bool, true, List, ℤ}
use huaweicloud_csi_driver.Status.{ok}
use huaweicloud_csi_driver.Effect.{M}
use huaweicloud_csi_driver.Effect.Keeps.{Keeps}
use huaweicloud_csi_driver.Config.{ServiceClient}

-- golangsdk.WaitFor, with its timeout in seconds
pub record Waiter : Type 1 where
  pub wait_for : (S : Type 0) → ℕ → M S Bool → M S (Unit {0})

-- Its documented behaviour: it does nothing but poll the predicate, and it returns without an error only
-- after a poll that was satisfied.
pub record IsWaiter (w : Waiter) : Type 1 where
  pub polls :
      (S : Type 0) (P : S → Type 0) (timeout : ℕ) (predicate : M S Bool)
      → Keeps P predicate
      → Keeps P (w.wait_for S timeout predicate)
  pub satisfied :
      (S : Type 0) (timeout : ℕ) (predicate : M S Bool) (s s' : S)
      → w.wait_for S timeout predicate s ≡ (ok tt, s')
      → (s₀ : S) × (predicate s₀ ≡ (ok true, s'))

-- shares.Share
pub record Share : Type 0 where
  pub id : String
  pub name : String
  pub size : ℤ
  pub share_proto : String
  pub status : String
  pub export_location : String
  pub export_locations : List String

-- shares.CreateOpts
pub record CreateOpts : Type 0 where
  pub share_proto : String
  pub size : ℤ
  pub name : String
  pub description : String

pub record GrantAccessOpts : Type 0 where
  pub access_level : String
  pub access_type : String
  pub access_to : String

-- Each call takes the client that it is made with; shares_list lists by name.
pub record SfsCloud : Type 1 where
  pub State : Type 0
  pub waiter : Waiter
  pub shares_create : ServiceClient → CreateOpts → M State Share
  pub shares_get : ServiceClient → String → M State Share
  pub shares_list : ServiceClient → String → M State (List Share)
  pub shares_delete : ServiceClient → String → M State (Unit {0})
  pub grant_access : ServiceClient → String → GrantAccessOpts → M State (Unit {0})

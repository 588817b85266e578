-- ===== src/SfsTurbo/Sdk.antt =====
-- The cloud as the SFS Turbo driver sees it: the SDK's data, and its calls as an interface. The calls
-- are those of github.com/chnsz/golangsdk; nothing is assumed of what they do.
use huaweicloud_csi_driver.Prelude.{ℕ, String, List, ℤ}
use huaweicloud_csi_driver.Status.{Result}
use huaweicloud_csi_driver.Effect.{M}
use huaweicloud_csi_driver.Common.{Timer}
use huaweicloud_csi_driver.Config.{ServiceClient}

-- The machine's float64, with the three operations that the driver has of it: strconv.ParseFloat, the
-- product with a constant, and the conversion to an int64.
pub record Float64 : Type 1 where
  pub Float : Type 0
  pub parse_float : String → Result Float
  pub times : Float → ℕ → Float
  pub to_int : Float → ℤ

-- shares.Turbo
pub record Turbo : Type 0 where
  pub id : String
  pub name : String
  pub size : String
  pub share_proto : String
  pub share_type : String
  pub status : String
  pub sub_status : String
  pub availability_zone : String
  pub vpc_id : String
  pub subnet_id : String
  pub security_group_id : String
  pub export_location : String

-- shares.CreateOpts
pub record CreateOpts : Type 0 where
  pub name : String
  pub share_proto : String
  pub share_type : String
  pub size : ℤ
  pub availability_zone : String
  pub vpc_id : String
  pub subnet_id : String
  pub security_group_id : String
  pub description : String

pub record ListOpts : Type 0 where
  pub limit : ℤ
  pub offset : ℤ

pub record PagedList : Type 0 where
  pub shares : List Turbo
  pub count : ℤ

-- Each call takes the client that it is made with.
pub record TurboCloud : Type 1 where
  pub State : Type 0
  pub timer : Timer
  pub float64 : Float64
  -- returns the id of the share
  pub shares_create : ServiceClient → CreateOpts → M State String
  pub shares_get : ServiceClient → String → M State Turbo
  pub shares_list : ServiceClient → M State (List Turbo)
  pub shares_list_page : ServiceClient → ListOpts → M State PagedList
  pub shares_expand : ServiceClient → String → ℤ → M State (Unit {0})
  pub shares_delete : ServiceClient → String → M State (Unit {0})

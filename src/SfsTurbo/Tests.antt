-- ===== src/SfsTurbo/Tests.antt =====
-- A small cloud in memory that keeps its shares and a log of the requests that change something, for
-- the tests of the SFS Turbo driver in the child.
mod Calls
mod Nodes
use mathlib.Core.List.{Memᴰ}
use huaweicloud_csi_driver.Prelude.{
  ℕ, ◌≡◌, refl, ap, arith, ◌==◌, String, Bool, true, false, ◌||◌, Option, none, some, List, [], ◌∷◌,
  ◌++◌, length, take, drop, if◌then◌else◌, ℤ, pos, pos_part, scale, ◌≤ℤ◌, ◌+◌, wrap, ◌+ℤ◌, ◌-ℤ◌,
}
use huaweicloud_csi_driver.Status.{Error, Result, ok, err, default_404, plain, is_not_found}
use huaweicloud_csi_driver.Effect.{M, attempt}
use huaweicloud_csi_driver.Effect.Keeps.{Keeps}
use huaweicloud_csi_driver.Utils.{round_up_size, gb_byte_size}
use huaweicloud_csi_driver.Utils.Decimal.{atoi}
use huaweicloud_csi_driver.Common.{wait_for_completed}
use huaweicloud_csi_driver.Common.Tests.{instant_timer, poll_times, instant_timer-IsTimer}
use huaweicloud_csi_driver.Config.{
  CloudCredentials, ServiceClient, new_service_client, sfs_turbo_v1_client,
}
use huaweicloud_csi_driver.Config.Access.{get_sfs_turbo_v1_client}
use huaweicloud_csi_driver.Csi.{
  VolumeCapability, single_node_writer, mount, CapacityRange, CreateVolumeRequest, ExpandRequest,
  ListRequest,
}
use huaweicloud_csi_driver.SfsTurbo.Sdk.{TurboCloud, Float64, Turbo, CreateOpts}
use huaweicloud_csi_driver.SfsTurbo.Driver.{SfsTurboDriver, new_sfs_turbo_driver}
use huaweicloud_csi_driver.SfsTurbo.Services.{
  described, size_of, get_share, delete_share, delete_present, deleted_condition,
  wait_for_share_deleted, delete_share_completed, expand_share, expanded_condition,
  wait_for_share_expanded, expand_share_completed,
}
use huaweicloud_csi_driver.SfsTurbo.Services.Effects.{SharesKeep}
use huaweicloud_csi_driver.SfsTurbo.Controller.{
  share_size, turbo_opts, expansion, same_opts, opts_of,
}
use huaweicloud_csi_driver.SfsTurbo.Controller.Bounds.{share_size-Bounds, expansion-Bounds}
use huaweicloud_csi_driver.SfsTurbo.Controller.Calls.{
  compare_share, find_share, create_turbo, delete_turbo, get_turbo, list_turbo,
  validate_turbo_capabilities, expand_turbo,
}
use huaweicloud_csi_driver.SfsTurbo.Controller.Safety.{
  create_turbo-Keeps, delete_turbo-Keeps, expand_turbo-Keeps, turbo_queries-Keeps,
}
use huaweicloud_csi_driver.SfsTurbo.Controller.Search.{FoundIn, find_share-FoundIn}
use huaweicloud_csi_driver.SfsTurbo.Controller.Outcome.{
  Gone, delete_turbo-Gone, Sized, expand_share_completed-Sized,
}

pub record World : Type 0 where
  pub shares : List Turbo
  pub requests : List String

-- Numbers without a fraction stand for the floats.
abbrev pub number_of : Option ℤ → Result ℤ
number_of none = err (plain "invalid syntax")
number_of (some n) = ok n

abbrev pub whole_numbers : Float64
whole_numbers = record {
  Float = ℤ;
  parse_float = λ text. number_of (atoi text);
  times = scale;
  to_int = λ n. n;
}

abbrev pub find : String → List Turbo → Result Turbo
find id [] = err (default_404 "no such share")
find id (v ∷ rest) = if v.id == id then ok v else find id rest

abbrev pub without : String → List Turbo → List Turbo
without id [] = []
without id (v ∷ rest) = let others = without id rest in if v.id == id then others else v ∷ others

-- Every expansion of the small cloud is to 600 GiB.
abbrev pub enlarged : List Turbo → List Turbo
enlarged [] = []
enlarged (v ∷ rest) = record v { size = "600"; sub_status = "221" } ∷ enlarged rest

abbrev pub share_of : CreateOpts → Turbo
share_of opts = record {
  id = "share-new";
  name = opts.name;
  size = "500";
  share_proto = opts.share_proto;
  share_type = opts.share_type;
  status = "200";
  sub_status = "";
  availability_zone = opts.availability_zone;
  vpc_id = opts.vpc_id;
  subnet_id = opts.subnet_id;
  security_group_id = opts.security_group_id;
  export_location = "10.0.0.7:/";
}

abbrev pub small_cloud : TurboCloud
small_cloud = record {
  State = World;
  timer = instant_timer;
  float64 = whole_numbers;
  shares_create = λ client opts w. (
    ok "share-new",
    record { shares = share_of opts ∷ w.shares; requests = "create" ∷ w.requests },
  );
  shares_get = λ client id w. (find id w.shares, w);
  shares_list = λ client w. (ok w.shares, w);
  shares_list_page = λ client opts w. (
    ok (record {
      shares = take (pos_part opts.limit) (drop (pos_part opts.offset) w.shares);
      count = pos (length w.shares);
    }),
    w,
  );
  shares_expand = λ client id size w.
      (ok tt, record { shares = enlarged w.shares; requests = "expand" ∷ w.requests });
  shares_delete = λ client id w.
      (ok tt, record { shares = without id w.shares; requests = "delete" ∷ w.requests });
}

abbrev pub credentials : CloudCredentials
credentials = record {
  cloud = "myhuaweicloud.com";
  region = "cn-north-4";
  project_id = "0f1e";
  vpc_id = "vpc-1";
  subnet_id = "subnet-1";
  security_group_id = "group-1";
}

abbrev pub driver : SfsTurboDriver
driver = record {
  endpoint = "unix:///csi/csi.sock";
  share_proto = "NFS";
  cloud = credentials;
  vcap = single_node_writer ∷ [];
  cscap = [];
  nscap = [];
}

abbrev pub data_share : Turbo
data_share = record {
  id = "share-1";
  name = "pvc-1";
  size = "500";
  share_proto = "NFS";
  share_type = "STANDARD";
  status = "200";
  sub_status = "";
  availability_zone = "cn-north-4a";
  vpc_id = "vpc-1";
  subnet_id = "subnet-1";
  security_group_id = "group-1";
  export_location = "10.0.0.7:/";
}

abbrev pub start : World
start = record { shares = data_share ∷ []; requests = [] }

abbrev pub has : String → List String → Bool
has request [] = false
has request (r ∷ rest) = r == request || has request rest

-- No request of a kind was sent.
abbrev pub Never : String → World → Type 0
Never request w = has request w.requests ≡ false

pub small_cloud-SharesKeep : (P : World → Type 0) → SharesKeep small_cloud P
small_cloud-SharesKeep P = record {
  shares_get = λ client id. record { at = λ w h. h };
  shares_list = λ client. record { at = λ w h. h };
  shares_list_page = λ client opts. record { at = λ w h. h };
}

abbrev pub capability : VolumeCapability
capability = record { access_mode = some single_node_writer; access_type = mount "nfs" [] }

abbrev pub small_range : CapacityRange
small_range = record { required_bytes = pos 10737418240; limit_bytes = pos 0 }

abbrev pub create_request : CreateVolumeRequest
create_request = record {
  name = "pvc-2";
  capacity_range = some small_range;
  volume_capabilities = capability ∷ [];
  parameters = ("availability", "cn-north-4a") ∷ [];
  volume_content_source = none;
  accessibility_requirements = none;
}

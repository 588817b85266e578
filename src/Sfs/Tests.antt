-- ===== src/Sfs/Tests.antt =====
-- A small cloud in memory that keeps its shares and a log of the requests that change something, and
-- tests of the SFS driver and of its theorems with it.
use huaweicloud_csi_driver.Prelude.{
  ◌≡◌, refl, ◌==◌, String, Bool, true, false, none, some, List, [], ◌∷◌, if◌then◌else◌, pos, ap,
  wrap,
}
use huaweicloud_csi_driver.Status.{Result, ok, err, default_404, plain, refuse, invalid_argument}
use huaweicloud_csi_driver.Effect.{M, pure, fail, attempt, ◌>>=◌}
use huaweicloud_csi_driver.Effect.Keeps.{Keeps, keeps_rules}
use huaweicloud_csi_driver.Effect.Returns.{Returns-bind, Returns-pure}
use huaweicloud_csi_driver.Effect.Raises.{OneOf, Raises}
use huaweicloud_csi_driver.Utils.{round_up_size}
use huaweicloud_csi_driver.Csi
use huaweicloud_csi_driver.Csi.{CreateVolumeRequest, CapacityRange}
use huaweicloud_csi_driver.Sfs.Sdk.{Waiter, IsWaiter, Share, CreateOpts, SfsCloud}
use huaweicloud_csi_driver.Sfs.Driver.{SfsDriver, sfs_client}
use huaweicloud_csi_driver.Sfs.Shares.{
  with_description, has_status, wait_for_share_status, create_sfs_share, grant_access_to,
}
use huaweicloud_csi_driver.Sfs.Controller.{
  sfs_create_validation, requested_gib, compare_named, first_named, check_volume_exist,
  share_or_new, granted_volume, create_sfs, delete_sfs,
}
use huaweicloud_csi_driver.Sfs.Controller.Codes.{two_codes, sfs_codes}
use huaweicloud_csi_driver.Sfs.Controller.Origin.{Answers, create_sfs-Answers}

-- A waiter that polls once.
unfoldable poll_once : {S : Type 0} → M S Bool → M S (Unit {0})
poll_once predicate = do
  satisfied ← predicate
  if satisfied then pure tt else fail (plain "A timeout occurred")

abbrev single_waiter : Waiter
single_waiter = record { wait_for = λ S timeout predicate. poll_once predicate }

poll_once-Keeps :
    {S : Type 0} (P : S → Type 0) (predicate : M S Bool)
    → Keeps P predicate
    → Keeps P (poll_once predicate)
unfolding poll_once
poll_once-Keeps P predicate k = search keeps_rules

poll_once-satisfied :
    {S : Type 0} (predicate : M S Bool) (s s' : S)
    → poll_once predicate s ≡ (ok tt, s')
    → (s₀ : S) × (predicate s₀ ≡ (ok true, s'))
unfolding poll_once
poll_once-satisfied {S} predicate s s' h =
    let (satisfied, s₁, polled, rest) = Returns-bind predicate _ s tt s' h in
    go satisfied s₁ polled rest
  where
    go :
        (satisfied : Bool) (s₁ : S)
        → predicate s ≡ (ok satisfied, s₁)
        → (if satisfied then pure tt else fail (plain "A timeout occurred")) s₁ ≡ (ok tt, s')
        → (s₀ : S) × (predicate s₀ ≡ (ok true, s'))
    go true s₁ polled rest = (s, rw (Returns-pure tt tt s₁ s' rest).1 at polled)
    go false s₁ polled rest = absurd (cc (ap (λ (q : Result (Unit {0}) × S). q.0) rest))

single_waiter-IsWaiter : IsWaiter single_waiter
single_waiter-IsWaiter = record {
  polls = λ S P timeout predicate. poll_once-Keeps P predicate;
  satisfied = λ S timeout predicate. poll_once-satisfied predicate;
}

record World : Type 0 where
  shares : List Share
  requests : List String

abbrev find : String → List Share → Result Share
find id [] = err (default_404 "no such share")
find id (v ∷ rest) = if v.id == id then ok v else find id rest

abbrev share_of : CreateOpts → Share
share_of opts = record {
  id = "share-new";
  name = opts.name;
  size = opts.size;
  share_proto = opts.share_proto;
  status = "available";
  export_location = "10.0.0.8:/";
  export_locations = [];
}

abbrev small_cloud : SfsCloud
small_cloud = record {
  State = World;
  waiter = single_waiter;
  shares_create = λ client opts w. (
    ok (share_of opts),
    record { shares = share_of opts ∷ w.shares; requests = "create" ∷ w.requests },
  );
  shares_get = λ client id w. (find id w.shares, w);
  shares_list = λ client name w. (ok w.shares, w);
  shares_delete = λ client id w. (ok tt, record w { requests = "delete" ∷ w.requests });
  grant_access = λ client id opts w. (ok tt, record w { requests = "grant" ∷ w.requests });
}

abbrev driver : SfsDriver
driver = record {
  node_id = "node-1";
  endpoint = "unix:///csi/csi.sock";
  share_proto = "NFS";
  cloud = record {
    cloud = "myhuaweicloud.com";
    region = "cn-north-4";
    project_id = "0f1e";
    vpc_id = "vpc-1";
    subnet_id = "";
    security_group_id = "";
  };
  vcap = [];
  cscap = [];
  nscap = [];
}

abbrev request : CreateVolumeRequest
request = record {
  name = "pvc-1";
  capacity_range = some (record { required_bytes = pos 0; limit_bytes = pos 0 });
  volume_capabilities = [];
  parameters = [];
  volume_content_source = none;
  accessibility_requirements = none;
}

abbrev start : World
start = record { shares = []; requests = [] }

abbrev after : World
after = record {
  shares =
      record {
        id = "share-new";
        name = "pvc-1";
        size = pos 10;
        share_proto = "NFS";
        status = "available";
        export_location = "10.0.0.8:/";
        export_locations = [];
      }
      ∷ [];
  requests = "grant" ∷ "create" ∷ [];
}

abbrev answer : Csi.Volume
answer = record {
  volume_id = "share-new";
  capacity_bytes = pos 10737418240;
  accessible_topology = [];
  volume_context = [];
  content_source = none;
}

created : create_sfs small_cloud driver request start ≡ (ok answer, after)
unfolding create_sfs sfs_client sfs_create_validation requested_gib round_up_size check_volume_exist
    first_named share_or_new create_sfs_share wait_for_share_status has_status poll_once
    granted_volume grant_access_to with_description attempt wrap
created = refl

create_sfs-Answers_example :
    (range : CapacityRange) × (request.capacity_range ≡ some range)
    × Answers small_cloud driver request range answer after
create_sfs-Answers_example =
    create_sfs-Answers small_cloud driver single_waiter-IsWaiter request answer start after created

-- A share that is there under the name, with another size.
abbrev taken : World
taken = record {
  shares =
      record {
        id = "share-7";
        name = "pvc-1";
        size = pos 20;
        share_proto = "NFS";
        status = "available";
        export_location = "10.0.0.8:/";
        export_locations = [];
      }
      ∷ [];
  requests = [];
}

refused : create_sfs small_cloud driver request taken ≡ (err (refuse invalid_argument), taken)
unfolding create_sfs sfs_client sfs_create_validation requested_gib round_up_size check_volume_exist
    first_named compare_named attempt wrap
refused = refl

sfs_codes_example :
    Raises (OneOf two_codes) (create_sfs small_cloud driver request)
    × Raises (OneOf two_codes) (delete_sfs small_cloud driver "share-7")
sfs_codes_example = sfs_codes small_cloud driver request "share-7"

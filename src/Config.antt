-- ===== src/Config.antt =====
-- pkg/config/cloud.go: credentials and the clients of the cloud's services.
pub mod Clients
pub mod Access
pub mod Available
mod Tests
use huaweicloud_csi_driver.Prelude.{
  String, ◌<>◌, ◌==◌, Bool, true, false, Option, none, some, List, [], ◌∷◌, if◌then◌else◌,
}
use huaweicloud_csi_driver.Prelude.Dict.{Dict, lookup}
use huaweicloud_csi_driver.Status.{Result, ok, err, plain}

-- CloudCredentials, without the secret keys; `project_id` is that of its CloudClient.
pub record CloudCredentials : Type 0 where
  pub cloud : String
  pub region : String
  pub project_id : String
  pub vpc_id : String
  pub subnet_id : String
  pub security_group_id : String

pub record ServiceCatalog : Type 0 where
  pub name : String
  pub version : String
  pub scope : String
  pub resource_base : String
  pub without_project_id : Bool

-- golangsdk.ServiceClient: the region and project that requests are signed for, and the URLs
pub record ServiceClient : Type 0 where
  pub region : String
  pub project_id : String
  pub endpoint : String
  pub resource_base : String

abbrev pub catalog : String → String → ServiceCatalog
catalog name version = record {
  name = name;
  version = version;
  scope = "";
  resource_base = "";
  without_project_id = false;
}

abbrev pub all_service_catalog : Dict ServiceCatalog
all_service_catalog =
    ("ecs", catalog "ecs" "v1")
    ∷ ("ecsV21", catalog "ecs" "v2.1")
    ∷ ("evsV1", catalog "evs" "v1")
    ∷ ("evsV2", catalog "evs" "v2")
    ∷ ("evsV21", catalog "evs" "v2.1")
    ∷ ("sfsV2", catalog "sfs" "v2")
    ∷ ("sfsTurboV1", catalog "sfs-turbo" "v1")
    ∷ []

-- The assignments to sc.Endpoint and sc.ResourceBase.
abbrev pub endpoint_of : CloudCredentials → ServiceCatalog → String → String
endpoint_of cc entry region =
    if entry.scope == "global"
    then "https://" <> (entry.name <> ("." <> (cc.cloud <> "/")))
    else "https://" <> (entry.name <> ("." <> (region <> ("." <> (cc.cloud <> "/")))))

abbrev segment : Bool → String → String → String
segment present base part = if present then base <> (part <> "/") else base

abbrev is_set : String → Bool
is_set s = if s == "" then false else true

abbrev negate : Bool → Bool
negate b = if b then false else true

abbrev pub resource_base_of : CloudCredentials → ServiceCatalog → String → String
resource_base_of cc entry endpoint =
    let versioned = segment (is_set entry.version) endpoint entry.version in
    let owned = segment (negate entry.without_project_id) versioned cc.project_id in
    segment (is_set entry.resource_base) owned entry.resource_base

abbrev pub client_for :
    CloudCredentials → String → Option ServiceCatalog → String → Result ServiceClient
client_for cc catalog_name none region =
    err (plain ("service type " <> (catalog_name <> " is invalid or not supportted")))
client_for cc catalog_name (some entry) region = ok (record {
  region = region;
  project_id = cc.project_id;
  endpoint = endpoint_of cc entry region;
  resource_base = resource_base_of cc entry (endpoint_of cc entry region);
})

-- newServiceClient
unfoldable pub new_service_client : CloudCredentials → String → String → Result ServiceClient
new_service_client cc catalog_name region =
    client_for cc catalog_name (lookup catalog_name all_service_catalog) region

unfoldable pub sfs_turbo_v1_client : CloudCredentials → Result ServiceClient
sfs_turbo_v1_client cc = new_service_client cc "sfsTurboV1" cc.region

unfoldable pub sfs_v2_client : CloudCredentials → Result ServiceClient
sfs_v2_client cc = new_service_client cc "sfsV2" cc.region

unfoldable pub ecs_v1_client : CloudCredentials → Result ServiceClient
ecs_v1_client cc = new_service_client cc "ecs" cc.region

unfoldable pub ecs_v21_client : CloudCredentials → Result ServiceClient
ecs_v21_client cc = new_service_client cc "ecsV21" cc.region

unfoldable pub evs_v2_client : CloudCredentials → Result ServiceClient
evs_v2_client cc = new_service_client cc "evsV2" cc.region

unfoldable pub evs_v21_client : CloudCredentials → Result ServiceClient
evs_v21_client cc = new_service_client cc "evsV21" cc.region

unfoldable pub evs_v1_client : CloudCredentials → Result ServiceClient
evs_v1_client cc = new_service_client cc "evsV1" cc.region

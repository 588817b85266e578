-- ===== src/Evs/Tests.antt =====
-- A small cloud in memory that keeps its volumes and a log of the requests that change something, for
-- the tests of the EVS driver in the children.
mod Creation
mod Publishing
mod Others
mod Nodes
use huaweicloud_csi_driver.Prelude.{
  ◌≡◌, refl, ◌==◌, String, Bool, true, false, ◌||◌, not, Option, none, some, List, [], ◌∷◌, ◌++◌,
  map, length, take, drop, if◌then◌else◌, ℤ, pos, pos_part,
}
use huaweicloud_csi_driver.Status.{Error, Result, ok, err, default_404}
use huaweicloud_csi_driver.Effect.{M}
use huaweicloud_csi_driver.Effect.Keeps.{Keeps}
use huaweicloud_csi_driver.Common.Tests.{instant_timer}
use huaweicloud_csi_driver.Config.{CloudCredentials}
use huaweicloud_csi_driver.Csi.{
  VolumeCapability, single_node_writer, mount, CapacityRange, CreateVolumeRequest, PublishRequest,
}
use huaweicloud_csi_driver.Evs.Sdk.{Cloud, Attachment, Volume, VolumeOpts, Snapshot}
use huaweicloud_csi_driver.Evs.Driver.{EvsDriver, new_driver}
use huaweicloud_csi_driver.Evs.Services.Effects.{QueriesKeep}

pub record World : Type 0 where
  pub volumes : List Volume
  pub requests : List String

abbrev pub find : String → List Volume → Result Volume
find id [] = err (default_404 "no such volume")
find id (v ∷ rest) = if v.id == id then ok v else find id rest

abbrev pub named : String → List Volume → List Volume
named name [] = []
named name (v ∷ rest) =
    let others = named name rest in if v.name == name then v ∷ others else others

abbrev pub without : String → List Volume → List Volume
without id [] = []
without id (v ∷ rest) = let others = without id rest in if v.id == id then others else v ∷ others

abbrev pub change : (Volume → Volume) → String → List Volume → List Volume
change f id [] = []
change f id (v ∷ rest) =
    let others = change f id rest in if v.id == id then f v ∷ others else v ∷ others

abbrev pub volume_of : VolumeOpts → Volume
volume_of opts = record {
  id = "vol-new";
  name = opts.name;
  status = "available";
  size = opts.size;
  availability_zone = opts.availability_zone;
  attachments = [];
  snapshot_id = opts.snapshot_id;
  source_vol_id = "";
  hw_passthrough = "";
  wwn = "";
}

abbrev pub added : VolumeOpts → World → World
added opts w = record {
  volumes = w.volumes ++ (volume_of opts ∷ []);
  requests = "create" ∷ w.requests;
}

abbrev pub resized : String → ℤ → World → World
resized id size w = record {
  volumes = change (λ v. record v { size = size }) id w.volumes;
  requests = "extend" ∷ w.requests;
}

abbrev pub attached : String → String → World → World
attached server id w = record {
  volumes =
      change
        (λ v. record v {
          status = "in-use";
          attachments = record { server_id = server; device = "/dev/vdb" } ∷ [];
        })
        id w.volumes;
  requests = "attach" ∷ w.requests;
}

abbrev pub detached : String → World → World
detached id w = record {
  volumes = change (λ v. record v { status = "available"; attachments = [] }) id w.volumes;
  requests = "detach" ∷ w.requests;
}

abbrev pub logged : String → World → World
logged request w = record w { requests = request ∷ w.requests }

abbrev pub snapshot : String → String → Snapshot
snapshot id name = record {
  id = id;
  size = pos 10;
  volume_id = "vol-1";
  created_at = 0;
  status = "available";
}

abbrev pub snapshots : List Snapshot
snapshots = snapshot "snap-1" "first" ∷ snapshot "snap-2" "second" ∷ snapshot "snap-3" "third" ∷ []

abbrev pub small_cloud : Cloud
small_cloud = record {
  State = World;
  timer = instant_timer;
  volumes_get = λ client id w. (find id w.volumes, w);
  volumes_list = λ client opts w. (ok (named opts.name w.volumes), w);
  volumes_create = λ client opts w. (ok "job-1", added opts.volume w);
  volumes_extend = λ client id size w. (ok "job-1", resized id size w);
  volumes_delete = λ client id w.
      (ok tt, record { volumes = without id w.volumes; requests = "delete" ∷ w.requests });
  cinder_create = λ client opts w. (ok "vol-new", added opts w);
  evs_job =
      λ client id w. (ok (record { status = "SUCCESS"; volume_id = "vol-new"; detail = "" }), w);
  server_get = λ client id w. (ok tt, w);
  attach = λ client server id w. (ok "job-2", attached server id w);
  detach = λ client server id w. (ok "job-2", detached id w);
  ecs_job = λ client id w. (ok (record { status = "SUCCESS"; volume_id = ""; detail = "" }), w);
  snapshots_get = λ client id w. (ok (snapshot id ""), w);
  snapshots_list = λ client opts w. (
    ok (
        if opts.name == ""
        then record {
          snapshots = take (pos_part opts.limit) (drop (pos_part opts.offset) snapshots);
          count = pos (length snapshots);
        }
        else record { snapshots = []; count = pos 0 }),
    w,
  );
  snapshots_create = λ client opts w. (ok (snapshot "snap-new" opts.name), logged "snapshot" w);
  snapshots_delete = λ client id w. (ok tt, logged "delete snapshot" w);
}

abbrev pub credentials : CloudCredentials
credentials = record {
  cloud = "myhuaweicloud.com";
  region = "cn-north-4";
  project_id = "0f1e";
  vpc_id = "";
  subnet_id = "";
  security_group_id = "";
}

abbrev pub driver : EvsDriver
driver = record {
  node_id = "node-1";
  endpoint = "unix:///csi/csi.sock";
  cluster = "kubernetes";
  cloud_credentials = credentials;
  vcap = single_node_writer ∷ [];
  cscap = [];
  nscap = [];
}

abbrev pub data_volume : Volume
data_volume = record {
  id = "vol-1";
  name = "pvc-1";
  status = "available";
  size = pos 20;
  availability_zone = "cn-north-4a";
  attachments = [];
  snapshot_id = "";
  source_vol_id = "";
  hw_passthrough = "";
  wwn = "";
}

abbrev pub start : World
start = record { volumes = data_volume ∷ []; requests = [] }

-- The same volume, attached.
abbrev pub busy_volume : Volume
busy_volume = record data_volume {
  status = "in-use";
  attachments = record { server_id = "node-1"; device = "/dev/vdb" } ∷ [];
}

abbrev pub busy : World
busy = record { volumes = busy_volume ∷ []; requests = "attach" ∷ [] }

abbrev pub has : String → List String → Bool
has request [] = false
has request (r ∷ rest) = r == request || has request rest

-- No request of a kind was sent.
abbrev pub Never : String → World → Type 0
Never request w = has request w.requests ≡ false

pub small_cloud-QueriesKeep : (P : World → Type 0) → QueriesKeep small_cloud P
small_cloud-QueriesKeep P = record {
  volumes_get = λ client id. record { at = λ w h. h };
  volumes_list = λ client opts. record { at = λ w h. h };
  evs_job = λ client id. record { at = λ w h. h };
  server_get = λ client id. record { at = λ w h. h };
  ecs_job = λ client id. record { at = λ w h. h };
  snapshots_get = λ client id. record { at = λ w h. h };
  snapshots_list = λ client opts. record { at = λ w h. h };
}

abbrev pub capability : VolumeCapability
capability = record { access_mode = some single_node_writer; access_type = mount "ext4" [] }

abbrev pub create_request : String → CreateVolumeRequest
create_request name = record {
  name = name;
  capacity_range = some (record { required_bytes = pos 21474836480; limit_bytes = pos 0 });
  volume_capabilities = capability ∷ [];
  parameters = ("type", "SSD") ∷ ("availability", "cn-north-4a") ∷ [];
  volume_content_source = none;
  accessibility_requirements = none;
}

abbrev pub publish_request : PublishRequest
publish_request = record {
  volume_id = "vol-1";
  node_id = "node-1";
  volume_capability = some capability;
}

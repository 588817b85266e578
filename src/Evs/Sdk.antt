-- ===== src/Evs/Sdk.antt =====
-- The cloud as the EVS driver sees it: the SDK's data, and its calls as an interface. The calls are
-- those of github.com/chnsz/golangsdk; nothing is assumed of what they do.
use huaweicloud_csi_driver.Prelude.{ℕ, String, Bool, List, ℤ}
use huaweicloud_csi_driver.Prelude.Dict.{Dict}
use huaweicloud_csi_driver.Effect.{M}
use huaweicloud_csi_driver.Common.{Timer}
use huaweicloud_csi_driver.Config.{ServiceClient}

pub record Attachment : Type 0 where
  pub server_id : String
  pub device : String

-- cloudvolumes.Volume
pub record Volume : Type 0 where
  pub id : String
  pub name : String
  pub status : String
  pub size : ℤ
  pub availability_zone : String
  pub attachments : List Attachment
  pub snapshot_id : String
  pub source_vol_id : String
  pub hw_passthrough : String
  pub wwn : String

-- cloudvolumes.VolumeOpts, and its fields again in the CreateOpts of the cinder volumes
pub record VolumeOpts : Type 0 where
  pub name : String
  pub size : ℤ
  pub volume_type : String
  pub availability_zone : String
  pub snapshot_id : String
  pub metadata : Dict String
  pub iops : ℤ
  pub throughput : ℤ

-- cloudvolumes.CreateOpts: `storage_id` is Scheduler.StorageID.
pub record CreateOpts : Type 0 where
  pub volume : VolumeOpts
  pub storage_id : String

pub record ListOpts : Type 0 where
  pub name : String
  pub marker : String
  pub limit : ℤ

-- The jobs of EVS and of ECS: `volume_id` is Entities.VolumeID, and `detail` the text of `%#v`.
pub record Job : Type 0 where
  pub status : String
  pub volume_id : String
  pub detail : String

-- snapshots.Snapshot; the time is in nanoseconds.
pub record Snapshot : Type 0 where
  pub id : String
  pub size : ℤ
  pub volume_id : String
  pub created_at : ℕ
  pub status : String

pub record SnapshotListOpts : Type 0 where
  pub id : String
  pub name : String
  pub volume_id : String
  pub status : String
  pub limit : ℤ
  pub offset : ℤ

pub record PagedList : Type 0 where
  pub snapshots : List Snapshot
  pub count : ℤ

pub record SnapshotCreateOpts : Type 0 where
  pub volume_id : String
  pub name : String
  pub force : Bool

-- Each call takes the client that it is made with.
pub record Cloud : Type 1 where
  pub State : Type 0
  pub timer : Timer
  pub volumes_get : ServiceClient → String → M State Volume
  pub volumes_list : ServiceClient → ListOpts → M State (List Volume)
  -- the three requests that start a job return its id
  pub volumes_create : ServiceClient → CreateOpts → M State String
  pub volumes_extend : ServiceClient → String → ℤ → M State String
  pub volumes_delete : ServiceClient → String → M State (Unit {0})
  pub cinder_create : ServiceClient → VolumeOpts → M State String
  pub evs_job : ServiceClient → String → M State Job
  pub server_get : ServiceClient → String → M State (Unit {0})
  -- the server, then the volume
  pub attach : ServiceClient → String → String → M State String
  pub detach : ServiceClient → String → String → M State String
  pub ecs_job : ServiceClient → String → M State Job
  pub snapshots_get : ServiceClient → String → M State Snapshot
  pub snapshots_list : ServiceClient → SnapshotListOpts → M State PagedList
  pub snapshots_create : ServiceClient → SnapshotCreateOpts → M State Snapshot
  pub snapshots_delete : ServiceClient → String → M State (Unit {0})

-- ===== src/Node/Host.antt =====
-- The host of a node server as an interface: the system calls, the commands and the mount library
-- (k8s.io/mount-utils) that the code uses. Nothing is assumed of what they do.
use huaweicloud_csi_driver.Prelude.{ℕ, String, Bool, Option, List, ℤ}
use huaweicloud_csi_driver.Status.{Result}
use huaweicloud_csi_driver.Effect.{M}

-- unix.Statfs_t
pub record Statfs : Type 0 where
  pub bavail : ℕ
  pub blocks : ℕ
  pub bfree : ℕ
  pub bsize : ℕ
  pub files : ℕ
  pub ffree : ℕ

-- metadatas.DeviceMetadata and metadatas.Metadata: the JSON document of an instance
pub record DeviceMetadata : Type 0 where
  pub type : String
  pub bus : String
  pub serial : String
  pub address : String

pub record Metadata : Type 0 where
  pub uuid : String
  pub name : String
  pub availability_zone : String
  pub devices : List DeviceMetadata

-- http.Response, with the body as encoding/json decodes it
pub record HttpResponse : Type 0 where
  pub status_code : ℕ
  pub body : Result Metadata

pub record Host (S : Type 0) : Type 0 where
  -- os.MkdirAll, os.OpenFile with O_CREATE, os.Remove, utilpath.Exists with CheckFollowSymlink
  pub mkdir_all : String → M S (Unit {0})
  pub create_file : String → M S (Unit {0})
  pub remove : String → M S (Unit {0})
  pub exists : String → M S Bool
  -- ioutil.ReadDir, ioutil.WriteFile, filepath.Glob, filepath.EvalSymlinks
  pub read_dir : String → M S (List String)
  pub write_file : String → String → M S (Unit {0})
  pub glob : String → M S (List String)
  pub eval_symlinks : String → M S String
  -- unix.Stat, of which the mode is used, and unix.Statfs
  pub stat_mode : String → M S ℕ
  pub statfs : String → M S Statfs
  -- os.Open of a device, and Seek to its end
  pub open_file : String → M S (Unit {0})
  pub seek_end : String → M S ℤ
  -- a command that is run by a shell, `udevadm trigger`, and `findmnt` for the source of a path
  pub run_shell : String → M S String
  pub udevadm_trigger : M S (Unit {0})
  pub findmnt_source : String → M S String
  -- the mounter: source, target, file system and options
  pub is_likely_not_mount_point : String → M S Bool
  pub mount : String → String → String → List String → M S (Unit {0})
  pub format_and_mount : String → String → String → List String → M S (Unit {0})
  pub cleanup_mount_point : String → M S (Unit {0})
  -- mountutils.ResizeFs: device and path
  pub need_resize : String → String → M S Bool
  pub resize : String → String → M S Bool
  -- http.Get
  pub http_get : String → M S HttpResponse
  -- the metadata of the instance, read from a config drive that is mounted for it
  pub config_drive : M S Metadata
  -- the variable metadataCache of the process
  pub metadata_cache : S → Option Metadata
  pub set_metadata_cache : Metadata → S → S

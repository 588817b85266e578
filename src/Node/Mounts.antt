-- ===== src/Node/Mounts.antt =====
-- pkg/utils/mounts/mount.go
pub mod Stats
use huaweicloud_csi_driver.Prelude.{
  ℕ, suc, ◌*◌, String, ◌<>◌, ◌==◌, Bool, true, false, ◌||◌, Option, none, some, List, [], ◌∷◌,
  if◌then◌else◌, ℤ, pos, sub_ℕ, scale, wrap,
}
use huaweicloud_csi_driver.Status.{Error, plain, text, panic, is_exist, is_not_exist}
use huaweicloud_csi_driver.Effect.{
  M, pure, fail, attempt, ◌>>=◌, ◌>>◌, map_error, with_variable, assign, in_closure,
}
use huaweicloud_csi_driver.Common.{Backoff, Timer}
use huaweicloud_csi_driver.Utils.Text.{slice_to, without_dashes}
use huaweicloud_csi_driver.Node.Host.{Host, Statfs}
use huaweicloud_csi_driver.Node.BlockDevice.{is_block_device, get_block_device_size}

pub record DeviceStats : Type 0 where
  pub block : Bool
  pub available_bytes : ℤ
  pub total_bytes : ℤ
  pub used_bytes : ℤ
  pub available_inodes : ℤ
  pub total_inodes : ℤ
  pub used_inodes : ℤ

-- IMount, less ScanForAttach, which no caller uses, and Mounter, which is the host's
pub record IMount (S : Type 0) : Type 0 where
  pub get_device_path : String → M S String
  pub is_likely_not_mount_point_attach : String → M S Bool
  pub unmount_path : String → M S (Unit {0})
  pub make_file : String → M S (Unit {0})
  pub make_dir : String → M S (Unit {0})
  pub get_device_stats : String → M S DeviceStats
  pub get_mount_fs : String → M S String

-- operationFinishInitDelay, operationFinishFactor, operationFinishSteps
abbrev pub operation_backoff : Backoff
operation_backoff = record { duration = 1; factor = 110; steps = 15 }

-- candidateDeviceNodes, for the id and its first twenty characters
abbrev pub candidate_device_nodes : String → String → List String
candidate_device_nodes volume_id short_id =
    ("virtio-" <> short_id)
    ∷ ("virtio-" <> volume_id)
    ∷ ("scsi-0QEMU_QEMU_HARDDISK_" <> short_id)
    ∷ ("scsi-0QEMU_QEMU_HARDDISK_" <> volume_id)
    ∷ ("scsi-3" <> volume_id)
    ∷ ("wwn-0x" <> without_dashes volume_id)
    ∷ []

unfoldable pub is_candidate : String → List String → Bool
is_candidate file [] = false
is_candidate file (c ∷ rest) = c == file || is_candidate file rest

-- The loops over the files and the candidates.
unfoldable pub first_candidate : List String → List String → String
unfolding is_candidate
first_candidate candidates [] = ""
first_candidate candidates (file ∷ files) =
    let later = first_candidate candidates files in
    if is_candidate file candidates then "/dev/disk/by-id/" <> file else later

-- The statistics of a file system. The products wrap around in an int64.
unfoldable pub stats_of : Statfs → DeviceStats
stats_of s = record {
  block = false;
  available_bytes = wrap (scale (pos s.bavail) s.bsize);
  total_bytes = wrap (scale (pos s.blocks) s.bsize);
  used_bytes = wrap (scale (sub_ℕ s.blocks s.bfree) s.bsize);
  available_inodes = wrap (pos s.ffree);
  total_inodes = wrap (pos s.files);
  used_inodes = wrap (sub_ℕ s.files s.ffree);
}

module _ {S : Type 0} (h : Host S) where
  unfoldable pub scan_hosts : List String → M S (Unit {0})
  scan_hosts [] = pure tt
  scan_hosts (name ∷ rest) =
      attempt (h.write_file ("/sys/class/scsi_host/" <> (name <> "/scan")) "- - -")
        (λ e. scan_hosts rest) (λ _. scan_hosts rest)

  unfoldable pub probe_volume : M S (Unit {0})
  probe_volume =
      attempt (h.read_dir "/sys/class/scsi_host/") (λ e. pure tt) scan_hosts >> h.udevadm_trigger

  -- getDevicePathBySerialID, for the id and its first twenty characters
  unfoldable pub path_by_serial_id : String → String → M S String
  unfolding first_candidate
  path_by_serial_id volume_id short_id =
      attempt (h.read_dir "/dev/disk/by-id/") (λ e. pure "")
        (λ files. pure (first_candidate (candidate_device_nodes volume_id short_id) files))

  -- The slice volumeID[:20] panics for a shorter id.
  unfoldable pub with_short_id : String → Option String → M S String
  with_short_id volume_id none = fail panic
  with_short_id volume_id (some short_id) = path_by_serial_id volume_id short_id

  unfoldable pub get_device_path_by_serial_id : String → M S String
  get_device_path_by_serial_id volume_id = with_short_id volume_id (slice_to 20 volume_id)

  -- The closure of GetDevicePath, which keeps the path.
  unfoldable pub device_condition : String → M (S × String) Bool
  device_condition volume_id = do
    device_path ← in_closure (get_device_path_by_serial_id volume_id)
    assign device_path
    if device_path == ""
        then attempt (in_closure probe_volume) (λ e. pure false) (λ _. pure false)
        else pure true

  -- A panic of the closure is not caught; any other error of the polling is the timeout.
  abbrev timed_out : String → Error → Error
  timed_out volume_id panic = panic
  timed_out volume_id e = plain "Failed to find device for the volumeID"

  unfoldable pub get_device_path : Timer → String → M S String
  get_device_path t volume_id = do
    device_path ← map_error (timed_out volume_id) (
        with_variable ""
          (t.exponential_backoff (S × String) operation_backoff (device_condition volume_id)))
    if device_path == ""
        then fail (plain "Device path was empty for volumeID")
        else pure device_path

  -- A directory that is missing is made, and is no mount point.
  unfoldable pub is_likely_not_mount_point_attach : String → M S Bool
  is_likely_not_mount_point_attach target =
      attempt (h.is_likely_not_mount_point target)
        (λ e. if is_not_exist e then h.mkdir_all target >> pure true else fail e) pure

  abbrev unless_exist : Error → M S (Unit {0})
  unless_exist e = if is_exist e then pure tt else fail e

  unfoldable pub make_dir : String → M S (Unit {0})
  make_dir path = attempt (h.mkdir_all path) unless_exist pure

  unfoldable pub make_file : String → M S (Unit {0})
  make_file path = attempt (h.create_file path) unless_exist pure

  unfoldable pub get_device_stats : String → M S DeviceStats
  unfolding stats_of
  get_device_stats path = do
    is_block ← is_block_device h path
    if is_block
        then (do
          size ← get_block_device_size h path
          pure (record {
            block = true;
            available_bytes = pos 0;
            total_bytes = size;
            used_bytes = pos 0;
            available_inodes = pos 0;
            total_inodes = pos 0;
            used_inodes = pos 0;
          }))
        else (do s ← h.statfs path; pure (stats_of s))

  -- Mount of mounts.go as an IMount
  unfoldable pub mount_provider : Timer → IMount S
  mount_provider t = record {
    get_device_path = get_device_path t;
    is_likely_not_mount_point_attach = is_likely_not_mount_point_attach;
    unmount_path = h.cleanup_mount_point;
    make_file = make_file;
    make_dir = make_dir;
    get_device_stats = get_device_stats;
    get_mount_fs = h.findmnt_source;
  }

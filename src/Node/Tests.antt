-- ===== src/Node/Tests.antt =====
-- A host for the tests of the node servers, and the tests of the metadata and the statistics.
use huaweicloud_csi_driver.Prelude.{
  ◌≡◌, refl, arith, ◌+◌, ◌≤◌, true, false, Option, none, some, [], ◌∷◌, pos, pos_part,
}
use huaweicloud_csi_driver.Status.{ok, err, plain}
use huaweicloud_csi_driver.Effect.{attempt}
use huaweicloud_csi_driver.Utils.Text.{split_commas, trim_space}
use huaweicloud_csi_driver.Node.Host.{Statfs, Metadata, Host}
use huaweicloud_csi_driver.Node.Mounts.{stats_of}
use huaweicloud_csi_driver.Node.Mounts.Stats.{stats_of_adds_up}
use huaweicloud_csi_driver.Node.Metadatas.{
  parse_instance_metadata, get_from_metadata_service, get_from_config_drive, get_from, get_in_order,
  cached_or_read, get_metadata, metadata_service, check_elements, check_metadata_search_order,
}
use huaweicloud_csi_driver.Node.Metadatas.Cache.{get_metadata-again}
use huaweicloud_csi_driver.Node.Metadatas.Order.{FromSource, get_in_order-checked}

-- A file system of a hundred blocks, of which forty are free.
abbrev pub small_fs : Statfs
small_fs = record { bavail = 38; blocks = 100; bfree = 40; bsize = 4096; files = 50; ffree = 20 }

abbrev pub instance_of_test : Metadata
instance_of_test = record {
  uuid = "node-1";
  name = "worker";
  availability_zone = "cn-north-4a";
  devices = record { type = "disk"; bus = "scsi"; serial = "vol-1"; address = "0:0:0:1" } ∷ [];
}

-- A host on which every call succeeds and nothing is mounted, with the cache that is given.
abbrev pub quiet_host : {S : Type 0} → (S → Option Metadata) → (Metadata → S → S) → Host S
quiet_host cache set_cache = record {
  mkdir_all = λ path s. (ok tt, s);
  create_file = λ path s. (ok tt, s);
  remove = λ path s. (ok tt, s);
  exists = λ path s. (ok true, s);
  read_dir = λ path s. (ok ("virtio-vol-1" ∷ []), s);
  write_file = λ path text s. (ok tt, s);
  glob = λ pattern s. (ok ("/dev/vdb" ∷ []), s);
  eval_symlinks = λ path s. (ok path, s);
  stat_mode = λ path s. (ok 16877, s);
  statfs = λ path s. (ok small_fs, s);
  open_file = λ path s. (ok tt, s);
  seek_end = λ path s. (ok (pos 0), s);
  run_shell = λ command s. (ok "0\n", s);
  udevadm_trigger = λ s. (ok tt, s);
  findmnt_source = λ path s. (ok "/dev/vdb\n", s);
  is_likely_not_mount_point = λ path s. (ok true, s);
  mount = λ source target fs_type options s. (ok tt, s);
  format_and_mount = λ source target fs_type options s. (ok tt, s);
  cleanup_mount_point = λ path s. (ok tt, s);
  need_resize = λ device path s. (ok false, s);
  resize = λ device path s. (ok true, s);
  http_get = λ url s. (ok (record { status_code = 200; body = ok instance_of_test }), s);
  config_drive = λ s. (err (plain "no config drive"), s);
  metadata_cache = cache;
  set_metadata_cache = set_cache;
}

abbrev pub without_cache : {S : Type 0} → Host S
without_cache = quiet_host (λ s. none) (λ metadata s. s)

stats_of_adds_up_example :
    ((stats_of small_fs).total_bytes ≡ pos 409600)
    × ((stats_of small_fs).used_bytes ≡ pos 245760)
    × (pos_part (stats_of small_fs).used_bytes + 163840 ≡ 409600)
    × ((stats_of small_fs).available_bytes ≡ pos 155648)
    × (pos_part (stats_of small_fs).used_bytes + pos_part (stats_of small_fs).available_bytes
        ≤ 409600)
    × ((stats_of small_fs).total_inodes ≡ pos 50)
    × ((stats_of small_fs).available_inodes ≡ pos 20)
    × (pos_part (stats_of small_fs).used_inodes + pos_part (stats_of small_fs).available_inodes
        ≡ 50)
stats_of_adds_up_example =
    stats_of_adds_up small_fs (omega arith) (omega arith) (omega arith) (omega arith) (omega arith)

-- The state is the cache of the process alone.
abbrev process : Host (Option Metadata)
process = quiet_host (λ cache. cache) (λ metadata cache. some metadata)

first_reading :
    get_metadata process "configDrive,metadataService" none
    ≡ (ok instance_of_test, some instance_of_test)
unfolding get_metadata cached_or_read get_in_order get_from get_from_config_drive
    get_from_metadata_service parse_instance_metadata split_commas trim_space attempt
first_reading = refl

get_metadata-again_example :
    (get_metadata process "metadataService" (some instance_of_test)
      ≡ (ok instance_of_test, some instance_of_test))
    × ((metadata_service process "metadataService").get_instance_id (some instance_of_test)
        ≡ (ok "node-1", some instance_of_test))
    × ((metadata_service process "metadataService").get_availability_zone (some instance_of_test)
        ≡ (ok "cn-north-4a", some instance_of_test))
get_metadata-again_example =
    get_metadata-again process (λ metadata s. refl) "configDrive,metadataService" "metadataService"
      instance_of_test none (some instance_of_test) first_reading

-- The metadata service is asked first, and the config drive, which fails, last.
abbrev offline : Host (Option Metadata)
offline = record process { http_get = λ url s. (err (plain "no route"), s) }

accepted : check_metadata_search_order "metadataService, configDrive" ≡ ok tt
unfolding check_metadata_search_order check_elements split_commas trim_space
accepted = refl

no_answer :
    get_in_order offline (plain "") (split_commas "metadataService, configDrive") none
    ≡ (err (plain "no config drive"), none)
unfolding get_in_order get_from get_from_config_drive get_from_metadata_service
    parse_instance_metadata split_commas trim_space attempt
no_answer = refl

get_in_order-checked_example : FromSource offline (plain "no config drive") none
get_in_order-checked_example =
    get_in_order-checked offline "metadataService, configDrive" (plain "no config drive") none none
      accepted no_answer

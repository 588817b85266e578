-- ===== src/Node/Shell.antt =====
-- The commands that the shared file systems' node servers run: pkg/sfs/utils.go, and its copy
-- pkg/sfsturbo/utils.go.
use huaweicloud_csi_driver.Prelude.{String, ◌<>◌, ◌==◌, Bool, false, not, if◌then◌else◌}
use huaweicloud_csi_driver.Status.{plain, text, is_exist}
use huaweicloud_csi_driver.Effect.{M, pure, fail, attempt, ◌>>◌, map_error}
use huaweicloud_csi_driver.Utils.Text.{trim_space}
use huaweicloud_csi_driver.Node.Host.{Host}

module _ {S : Type 0} (h : Host S) where
  -- Run
  unfoldable pub run : String → M S String
  run cmd = map_error (λ e. plain (text e)) (h.run_shell cmd)

  unfoldable pub mount_nfs : String → String → String → M S (Unit {0})
  mount_nfs source target mount_options = do
    run (
        "mount -t nfs -o vers=3,timeo=600,"
        <> (mount_options <> (" " <> (source <> (" " <> target)))))
    pure tt

  unfoldable pub unmount : String → M S (Unit {0})
  unmount target = do run ("umount " <> target); pure tt

  -- isMounted: whether a line of `mount` matches the target
  unfoldable pub is_mounted : String → M S Bool
  is_mounted target =
      attempt (run ("mount | grep " <> (target <> " | grep -v grep | wc -l"))) (λ e. pure false)
        (λ out. pure (not (trim_space out == "0")))

  -- makeDir
  unfoldable pub make_target_dir : String → M S (Unit {0})
  make_target_dir path =
      attempt (h.mkdir_all path) (λ e. if is_exist e then pure tt else fail e) pure

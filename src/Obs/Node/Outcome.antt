-- ===== src/Obs/Node/Outcome.antt =====
-- What NodePublishVolume of pkg/obs/nodeserver.go did when it returned without an error.
use huaweicloud_csi_driver.Prelude.Dict.{get}
use huaweicloud_csi_driver.Prelude.{◌≡◌, String, ◌<>◌}
use huaweicloud_csi_driver.Status.{ok}
use huaweicloud_csi_driver.Utils.Text.{dir}
use huaweicloud_csi_driver.Utils.Sha256.{sha256}
use huaweicloud_csi_driver.Utils.Aes.{encrypt_aes_cbc}
use huaweicloud_csi_driver.Node.Host.{Host}
use huaweicloud_csi_driver.Node.Mounts.{IMount}
use huaweicloud_csi_driver.Obs.Sdk.{ObsCloud}
use huaweicloud_csi_driver.Obs.Driver.{ObsDriver}
use huaweicloud_csi_driver.Obs.Command.{CommandRpc, Channel, send_command}
use huaweicloud_csi_driver.Obs.Node.{Keys}

module _ (C : ObsCloud) (h : Host C.State) (m : IMount C.State) (c : Channel C.State) (keys : Keys)
    (d : ObsDriver) where
  -- A command to mount the bucket at the target with the credentials of a file, signed with the secret of
  -- the driver, was answered without an error.
  abbrev pub MountSent : String → String → String → C.State → C.State → Type 0
  MountSent bucket_name target file s s' =
      (cmd : CommandRpc) × (s₁ : C.State) × (cmd.action ≡ "mount")
      × (get cmd.parameters "bucketName" ≡ bucket_name)
      × (get cmd.parameters "targetPath" ≡ target)
      × (get cmd.parameters "credential" ≡ file)
      × (encrypt_aes_cbc c.library keys.secret (sha256 c.hash cmd.parameters) s
          ≡ (ok cmd.token, s₁))
      × (send_command c cmd s₁ ≡ (ok tt, s'))

  -- The two keys were written to the file, in its directory.
  abbrev pub CredentialsWritten : String → C.State → C.State → Type 0
  CredentialsWritten file s s' =
      (s₁ : C.State) × (s₂ : C.State) × (h.mkdir_all (dir file) s ≡ (ok tt, s₁))
      × (c.open_truncated file s₁ ≡ (ok tt, s₂))
      × (c.write_line file (keys.access_key <> (":" <> keys.secret_key)) s₂ ≡ (ok tt, s'))

  -- A file of a new name held the credentials while the bucket was mounted with it, and the removal of the
  -- same file was the last call.
  abbrev pub MountedWithCredentials : String → String → C.State → Type 0
  MountedWithCredentials bucket_name target s' =
      (id : String) × (s₀ : C.State) × (s₁ : C.State) × (s₂ : C.State) × (s₃ : C.State)
      × (c.new_uuid s₀ ≡ (ok id, s₁))
      × CredentialsWritten ("/var/lib/csi" <> ("/" <> id)) s₁ s₂
      × MountSent bucket_name target ("/var/lib/csi" <> ("/" <> id)) s₂ s₃
      × ((c.remove_all ("/var/lib/csi" <> ("/" <> id)) s₃).1 ≡ s')

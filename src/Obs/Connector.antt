-- ===== src/Obs/Connector.antt =====
-- The connector of the OBS node server: the HTTP server on the host that runs mount commands
-- (cluster/images/obs-csi-plugin/csi-connector-server.go).
pub mod Authentic
use huaweicloud_csi_driver.Prelude.{
  ℕ, String, ◌<>◌, ◌==◌, Bool, true, false, not, ◌&&◌, Option, none, some, List, [], ◌∷◌, length,
  eqb, if◌then◌else◌,
}
use huaweicloud_csi_driver.Prelude.Dict.{Dict, get}
use huaweicloud_csi_driver.Status.{Error, Result, ok, err, plain, text, panic, is_not_exist}
use huaweicloud_csi_driver.Effect.{M, pure, fail, lift, attempt, ◌>>=◌, ◌>>◌, map_error, deferred}
use huaweicloud_csi_driver.Utils.Text.{strip_prefix}
use huaweicloud_csi_driver.Utils.Sha256.{Bytes, sha256}
use huaweicloud_csi_driver.Utils.Aes.{decrypt_aes_cbc}
use huaweicloud_csi_driver.Node.Host.{Host}
use huaweicloud_csi_driver.Obs.Command.{CommandRpc, action_mount, Channel, credential_dir}

-- What genResponse writes: the status code, and the data as a message.
pub record ConnectorResponse : Type 0 where
  pub status_code : ℕ
  pub message : String

abbrev pub response : ℕ → String → ConnectorResponse
response code message = record { status_code = code; message = message }

unfoldable pub same_bytes : Bytes → Bytes → Bool
same_bytes [] [] = true
same_bytes [] (d ∷ ds) = false
same_bytes (c ∷ cs) [] = false
same_bytes (c ∷ cs) (d ∷ ds) = let rest = same_bytes cs ds in eqb c d && rest

-- strings.HasPrefix
abbrev begins_with : String → String → Bool
begins_with prefix s = elim (strip_prefix prefix s) [ none ↦ false | some rest ↦ true ]

abbrev pub mount_keys : List String
mount_keys = "bucketName" ∷ "targetPath" ∷ "region" ∷ "cloud" ∷ "credential" ∷ []

-- The loop of checkMountParameters.
unfoldable pub check_present : Dict String → List String → Result (Unit {0})
check_present parameters [] = ok tt
check_present parameters (key ∷ keys) =
    let others = check_present parameters keys in
    if get parameters key == ""
    then err (plain ("param " <> (key <> " cannot be empty")))
    else others

-- The command line of mountHandler.
unfoldable pub obsfs_command : Dict String → String
obsfs_command parameters =
    let obs_name : String =
      if get parameters "cloud" == "prod-cloud-ocb.orange-business.com" then "oss" else "obs" in
    "obsfs "
    <> (get parameters "bucketName"
        <> (" "
            <> (get parameters "targetPath"
                <> (" -o url="
                    <> (obs_name
                        <> ("."
                            <> (get parameters "region"
                                <> ("."
                                    <> (get parameters "cloud"
                                        <> (" -o passwd_file="
                                            <> (get parameters "credential"
                                                <> " -o big_writes -o max_write=131072 -o use_ino")))))))))))

module _ {S : Type 0} (h : Host S) (c : Channel S) (secret : Bytes) where
  -- An error is answered with a status code. A panic ends the connection without an answer.
  abbrev pub answer : ℕ → Error → M S ConnectorResponse
  answer code panic = fail panic
  answer code e = pure (response code (text e))

  -- checkRequestToken
  unfoldable pub check_request_token : Bytes → Dict String → M S (Unit {0})
  unfolding same_bytes
  check_request_token token parameters = do
    original ← decrypt_aes_cbc c.library secret token
    if same_bytes (sha256 c.hash parameters) original then pure tt else fail (plain "invalid token")

  -- checkFileExists
  unfoldable pub check_file_exists : String → M S Bool
  check_file_exists file = attempt (c.stat file) (λ e. pure (not (is_not_exist e))) (λ _. pure true)

  -- checkMountParameters
  unfoldable pub check_mount_parameters : Dict String → M S (Unit {0})
  unfolding check_present strip_prefix
  check_mount_parameters parameters = do
    lift (check_present parameters mount_keys)
    if begins_with credential_dir (get parameters "credential")
        then (do
          exists ← check_file_exists (get parameters "credential")
          if exists then pure tt else fail (plain "credential file credential not exist"))
        else fail (plain "credential file can only use DIR")

  -- deleteCredential
  unfoldable pub delete_credential : String → M S (Unit {0})
  unfolding strip_prefix
  delete_credential file =
      if begins_with credential_dir file
      then attempt (c.remove_all file) (λ e. pure tt) pure
      else pure tt

  -- mountHandler
  unfoldable pub mount_handler : Dict String → M S (Unit {0})
  unfolding obsfs_command
  mount_handler parameters =
      deferred (delete_credential (get parameters "credential"))
        (do map_error (λ e. plain (text e)) (h.run_shell (obsfs_command parameters)); pure tt)

  -- ServeHTTP behind the check of the token.
  unfoldable pub run_command : CommandRpc → M S ConnectorResponse
  run_command cmd =
      if cmd.action == action_mount
      then attempt (check_mount_parameters cmd.parameters) (answer 400) (λ _.
        attempt (mount_handler cmd.parameters) (answer 500) (λ _. pure (response 200 "success")))
      else pure (response 400 ("Invalid action " <> cmd.action))

  -- ServeHTTP behind the decoding of the command.
  unfoldable pub serve_command : CommandRpc → M S ConnectorResponse
  serve_command cmd =
      attempt (check_request_token cmd.token cmd.parameters) (answer 400) (λ _. run_command cmd)

  -- ServeHTTP, for the body as it is read
  unfoldable pub serve_http : Result Bytes → M S ConnectorResponse
  serve_http body = attempt (lift body) (answer 400) (λ bytes.
      if eqb (length bytes) 0
      then pure (response 400 "Request body is empty")
      else attempt (lift (c.unmarshal bytes)) (answer 400) serve_command)

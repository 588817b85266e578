-- ===== src/Obs/Command.antt =====
-- The commands that the OBS node server sends to the connector on its host (pkg/obs/mount.go), and what both use
-- of the host besides Node/Host.
use huaweicloud_csi_driver.Prelude.{ℕ, String, eqb, if◌then◌else◌}
use huaweicloud_csi_driver.Prelude.Dict.{Dict}
use huaweicloud_csi_driver.Status.{Result, status, wrapping, internal}
use huaweicloud_csi_driver.Effect.{M, pure, fail, lift, ◌>>=◌, map_error}
use huaweicloud_csi_driver.Utils.Sha256.{Bytes}
use huaweicloud_csi_driver.Utils.Aes.{Library}

-- CommandRPC
pub record CommandRpc : Type 0 where
  pub action : String
  pub token : Bytes
  pub parameters : Dict String

abbrev pub action_mount : String
action_mount = "mount"

-- The answer to a request: its status code, and its body as it is read
pub record PostResponse : Type 0 where
  pub status_code : ℕ
  pub body : Result String

pub record Channel (S : Type 0) : Type 0 where
  -- uuid.New, and os.OpenFile that truncates, a line that is written, os.RemoveAll, os.Stat
  pub new_uuid : M S String
  pub open_truncated : String → M S (Unit {0})
  pub write_line : String → String → M S (Unit {0})
  pub remove_all : String → M S (Unit {0})
  pub stat : String → M S (Unit {0})
  -- json.Marshal and json.Unmarshal of a command
  pub marshal : CommandRpc → Result Bytes
  pub unmarshal : Bytes → Result CommandRpc
  -- a POST request over the socket of the connector
  pub post : Bytes → M S PostResponse
  -- the hash of Sha256, and the library of aes.go
  pub hash : Bytes → Bytes
  pub library : Library S

abbrev pub credential_dir : String
credential_dir = "/var/lib/csi"

-- sendCommand
unfoldable pub send_command : {S : Type 0} → Channel S → CommandRpc → M S (Unit {0})
send_command c cmd = do
  request ← lift (c.marshal cmd)
  response ← map_error (wrapping internal) (c.post request)
  if eqb response.status_code 200 then pure tt else (do
    body ← map_error (wrapping internal) (lift response.body)
    fail (status internal body))

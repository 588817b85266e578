-- ===== src/Obs/Tests/Nodes.antt =====
-- Tests of the OBS node server, of its connector and of their theorems.
use mathlib.Core.List.{Permᴰ}
use huaweicloud_csi_driver.Prelude.{
  ℕ, ◌+◌, ◌-◌, ◌≡◌, refl, sym, ap, ◌∙◌, inl, inr, eq_iff, Bool-cases, arith, String, ◌==◌, Bool,
  true, false, ◌||◌, none, some, List, [], ◌∷◌, map, length-map, replicate,
}
use huaweicloud_csi_driver.Prelude.Dict.{Dict, get}
use huaweicloud_csi_driver.Status.{ok}
use huaweicloud_csi_driver.Effect.{attempt}
use huaweicloud_csi_driver.Effect.Keeps.{Keeps}
use huaweicloud_csi_driver.Utils.Text.{dir}
use huaweicloud_csi_driver.Utils.Sha256.{
  Bytes, sha256, sort_strings, insert_key, text_leb, join_and,
}
use huaweicloud_csi_driver.Utils.Aes.{Library, new_cipher, encrypt_aes_cbc, crypt_blocks, padded}
use huaweicloud_csi_driver.Utils.Aes.RoundTrip.{IsLibrary}
use huaweicloud_csi_driver.Csi.{access_unset}
use huaweicloud_csi_driver.Csi.Node.{NodePublishRequest}
use huaweicloud_csi_driver.Common.Tests.{instant_timer}
use huaweicloud_csi_driver.Node.Host.{Host}
use huaweicloud_csi_driver.Node.Mounts.{
  IMount, mount_provider, is_likely_not_mount_point_attach, make_dir,
}
use huaweicloud_csi_driver.Node.Tests.{without_cache}
use huaweicloud_csi_driver.Obs.Services.Client.{get_obs_client}
use huaweicloud_csi_driver.Obs.Services.Buckets.{
  get_bucket_metadata, get_bucket_capacity, get_parallel_fs_bucket,
}
use huaweicloud_csi_driver.Obs.Command.{CommandRpc, action_mount, Channel, send_command}
use huaweicloud_csi_driver.Obs.Node.{
  Keys, mount_parameters, obs_publish_validation, create_credential_file, mount_bucket,
  mount_with_credentials, node_publish_obs,
}
use huaweicloud_csi_driver.Obs.Connector.{check_request_token, serve_http}
use huaweicloud_csi_driver.Obs.Connector.Authentic.{
  check_request_token-signed, run_command-Keeps, serve_http-Keeps,
}
use huaweicloud_csi_driver.Obs.Tests.{World, fixed_cloud, driver, start}

abbrev logged : String → World → World
logged request w = record w { requests = request ∷ w.requests }

-- A cipher that adds one to each byte.
abbrev shifted : Bytes → Bytes
shifted bytes = map (λ (n : ℕ). n + 1) bytes

abbrev shifted_back : Bytes → Bytes
shifted_back bytes = map (λ (n : ℕ). n - 1) bytes

shifted_back-shifted : (bytes : Bytes) → shifted_back (shifted bytes) ≡ bytes
shifted_back-shifted [] = refl
shifted_back-shifted (n ∷ bytes) =
    let same : n + 1 - 1 ≡ n = omega arith in
    ap (λ (k : ℕ). k ∷ shifted_back (shifted bytes)) same ∙ ap (◌∷◌ n) (shifted_back-shifted bytes)

abbrev small_library : Library World
small_library = record {
  encrypt_blocks = λ key iv blocks. shifted blocks;
  decrypt_blocks = λ key iv blocks. shifted_back blocks;
  encode_base64 = λ bytes. 43 ∷ bytes;
  decode_base64 = λ bytes. elim bytes [ [] ↦ ok [] | b ∷ rest ↦ ok rest ];
  read_random = λ count w. (ok (replicate count 7), w);
}

small_library-IsLibrary : IsLibrary small_library
small_library-IsLibrary = record {
  inverse = λ key iv blocks vector whole. shifted_back-shifted blocks;
  same_length = λ key iv blocks. length-map (λ (n : ℕ). n + 1) blocks;
  decodes = λ bytes. refl;
}

abbrev secret : Bytes
secret = replicate 16 97

abbrev mount_command : CommandRpc
mount_command = record { action = action_mount; token = []; parameters = ("cloud", "a") ∷ [] }

-- A channel to a connector that answers every request with success. The hash is the text itself.
abbrev small_channel : Channel World
small_channel = record {
  new_uuid = λ w. (ok "7f3a", w);
  open_truncated = λ file w. (ok tt, w);
  write_line = λ file line w. (ok tt, logged "write" w);
  remove_all = λ file w. (ok tt, logged "remove" w);
  stat = λ file w. (ok tt, w);
  marshal = λ command. ok command.token;
  unmarshal = λ bytes. ok (record mount_command { token = bytes });
  post = λ request w. (ok (record { status_code = 200; body = ok "success" }), logged "post" w);
  hash = λ bytes. bytes;
  library = small_library;
}

abbrev small_host : Host World
small_host = record without_cache { run_shell = λ command w. (ok "", logged "obsfs" w) }

abbrev parameters : Dict String
parameters = ("region", "b") ∷ ("cloud", "a") ∷ []

-- The parameters, as they arrive in the other order.
abbrev received : Dict String
received = ("cloud", "a") ∷ ("region", "b") ∷ []

same_values : (key : String) → get received key ≡ get parameters key
same_values key = elim (Bool-cases ("cloud" == key)) [
  | inl cloud ↦ elim (Bool-cases ("region" == key)) [
    | inl region ↦
        let same : "cloud" ≡ "region" =
          (eq_iff "cloud" key).0 cloud ∙ sym ((eq_iff "region" key).0 region) in
        let absent : false ≡ true = (eq_iff "cloud" "region").1 same in absurd (cc absent)
    | inr other ↦ rw (cloud, other) refl
  ]
  | inr other ↦ elim (Bool-cases ("region" == key)) [
    | inl region ↦ rw (other, region) refl
    | inr neither ↦ rw (other, neither) refl
  ]
]

valid_secret : new_cipher secret ≡ ok tt
unfolding new_cipher
valid_secret = refl

check_request_token-signed_example :
    (token : Bytes) × (encrypt_aes_cbc small_library secret
        (sha256 (λ bytes. bytes) parameters)
        start
      ≡ (ok token, start))
    × ((t : World)
        → check_request_token small_host small_channel secret token received t ≡ (ok tt, t))
check_request_token-signed_example =
    check_request_token-signed small_host small_channel secret small_library-IsLibrary parameters
      received (replicate 16 7) start start valid_secret refl refl (Permᴰ.swap refl refl)
      same_values

abbrev has : String → List String → Bool
has request [] = false
has request (r ∷ rest) = r == request || has request rest

-- Nothing was written by the connector.
abbrev NoWrite : World → Type 0
NoWrite w = has "write" w.requests ≡ false

serve_http-Keeps_example :
    Keeps NoWrite (serve_http small_host small_channel secret (ok (43 ∷ 7 ∷ 97 ∷ [])))
serve_http-Keeps_example =
    serve_http-Keeps small_host small_channel secret (ok (43 ∷ 7 ∷ 97 ∷ [])) (λ command w signed.
      run_command-Keeps small_host small_channel secret (λ line. record { at = λ v h. h })
        (λ file. record { at = λ v h. h }) (λ file. record { at = λ v h. h }) command)

abbrev keys : Keys
keys = record { access_key = "AK"; secret_key = "SK"; secret = secret }

abbrev mounter : IMount World
mounter = mount_provider small_host instant_timer

abbrev publish_request : NodePublishRequest
publish_request = record {
  volume_id = "media";
  staging_target_path = "";
  target_path = "/var/lib/pods/target";
  volume_capability = some (record { access_mode = none; access_type = access_unset });
  readonly = false;
  volume_context = [];
}

abbrev after_publication : World
after_publication = logged "remove" (logged "post" (logged "write" start))

published :
    node_publish_obs fixed_cloud small_host mounter small_channel keys driver publish_request start
    ≡ (ok tt, after_publication)
unfolding node_publish_obs obs_publish_validation get_parallel_fs_bucket get_bucket_metadata
    get_bucket_capacity get_obs_client mount_provider is_likely_not_mount_point_attach make_dir
    mount_with_credentials create_credential_file mount_bucket mount_parameters send_command
    encrypt_aes_cbc crypt_blocks padded new_cipher sha256 sort_strings insert_key text_leb join_and
    dir attempt
published = refl

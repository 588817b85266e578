-- ===== src/Obs/Connector/Authentic.antt =====
-- The tokens of commands: what the OBS node server signs is accepted by the connector, and nothing else is run
-- (pkg/obs/nodeserver.go, csi-connector-server.go).
use mathlib.Core.List.{Permᴰ}
use huaweicloud_csi_driver.Prelude.{
  ℕ, ◌≡◌, refl, sym, ap, ◌∙◌, arith, inl, inr, String, true, Bool-cases, [], ◌∷◌, eqb, length,
}
use huaweicloud_csi_driver.Prelude.Dict.{Dict, get}
use huaweicloud_csi_driver.Status.{Error, Result, ok, err, panic}
use huaweicloud_csi_driver.Effect.{attempt}
use huaweicloud_csi_driver.Effect.Keeps.{
  Keeps, keeps_rules, Keeps-attempt, Keeps-attempt_result, Keeps-if, Keeps-lift, Keeps-fail,
  Keeps-pure,
}
use huaweicloud_csi_driver.Utils.Sha256.{Bytes, sha256, keys_of}
use huaweicloud_csi_driver.Utils.Sha256.Order.{sha256-perm}
use huaweicloud_csi_driver.Utils.Aes.{
  block_size, new_cipher, encrypt_aes_cbc, decrypt_bytes, decrypt_aes_cbc,
}
use huaweicloud_csi_driver.Utils.Aes.RoundTrip.{IsLibrary, decrypt_aes_cbc-encrypt_aes_cbc}
use huaweicloud_csi_driver.Node.Host.{Host}
use huaweicloud_csi_driver.Obs.Command.{CommandRpc, Channel}
use huaweicloud_csi_driver.Obs.Connector.{
  answer, same_bytes, check_mount_parameters, check_file_exists, mount_handler, delete_credential,
  check_request_token, run_command, serve_command, serve_http,
}

same_bytes_refl : (bytes : Bytes) → same_bytes bytes bytes ≡ true
unfolding same_bytes
same_bytes_refl [] = refl
same_bytes_refl (b ∷ bytes) =
    let rest = same_bytes_refl bytes in
    let same : eqb b b ≡ true = ground arith in rw (same, rest) refl

same_bytes-eq : (bytes bytes' : Bytes) → same_bytes bytes bytes' ≡ true → bytes ≡ bytes'
unfolding same_bytes
same_bytes-eq [] [] h = refl
same_bytes-eq [] (d ∷ ds) h = absurd (cc h)
same_bytes-eq (c ∷ cs) [] h = absurd (cc h)
same_bytes-eq (c ∷ cs) (d ∷ ds) h = elim (Bool-cases (eqb c d)) [
  | inl same ↦
      let number : c ≡ d = ground (arith, same) in
      let rest : cs ≡ ds = same_bytes-eq cs ds (rw same at h) in rw (number, rest) refl
  | inr other ↦ absurd (cc (rw other at h))
]

module _ {S : Type 0} (h : Host S) (c : Channel S) (secret : Bytes) where
  -- The connector accepts the token of every command that a node server with its secret signed, also where
  -- the parameters arrive in another order: if the secret is a key, and sixteen random bytes were read, then
  -- the token is made, and the check of it succeeds and changes nothing.
  pub check_request_token-signed :
      (lawful : IsLibrary c.library) (parameters received : Dict String) (iv : Bytes) (s s' : S)
      → new_cipher secret ≡ ok tt
      → c.library.read_random block_size s ≡ (ok iv, s')
      → length iv ≡ block_size
      → Permᴰ (keys_of received) (keys_of parameters)
      → ((key : String) → get received key ≡ get parameters key)
      → (token : Bytes) × (encrypt_aes_cbc c.library secret (sha256 c.hash parameters) s
          ≡ (ok token, s'))
        × ((t : S) → check_request_token h c secret token received t ≡ (ok tt, t))
  unfolding check_request_token attempt
  check_request_token-signed lawful parameters received iv s s' valid read whole keys same =
      let (token, signed, opened) =
        decrypt_aes_cbc-encrypt_aes_cbc c.library lawful secret (sha256 c.hash parameters) iv s s'
          valid read whole in
      (
        token,
        signed,
        λ t.
            rw
              (
                opened t,
                sha256-perm c.hash received parameters keys same,
                same_bytes_refl (sha256 c.hash parameters),
              )
              refl,
      )

  -- The token of a command is the encryption, under the connector's secret, of the digest of its parameters.
  abbrev pub IsSigned : CommandRpc → S → Type 0
  IsSigned cmd s =
      (decrypt_aes_cbc c.library secret cmd.token s).0 ≡ ok (sha256 c.hash cmd.parameters)

  -- Where the check succeeds, the token is signed.
  check_request_token-IsSigned :
      (cmd : CommandRpc) (s : S)
      → (check_request_token h c secret cmd.token cmd.parameters s).0 ≡ ok tt
      → IsSigned cmd s
  unfolding check_request_token attempt
  check_request_token-IsSigned cmd s checked =
      go (decrypt_aes_cbc c.library secret cmd.token s).0 refl
    where
      go :
          (r : Result Bytes) → (decrypt_aes_cbc c.library secret cmd.token s).0 ≡ r → IsSigned cmd s
      go (err e) opened = absurd (cc (rw opened at checked))
      go (ok original) opened =
          elim (Bool-cases (same_bytes (sha256 c.hash cmd.parameters) original)) [
            | inl same ↦
                opened ∙ ap ok (sym (same_bytes-eq (sha256 c.hash cmd.parameters) original same))
            | inr other ↦ absurd (cc (rw (opened, other) at checked))
          ]

  module _ {P : S → Type 0} where
    answer-Keeps : (code : ℕ) (e : Error) → Keeps P (answer h c secret code e)
    answer-Keeps code panic = Keeps-fail _
    answer-Keeps code _ = Keeps-pure _

    decrypt_aes_cbc-Keeps : (token : Bytes) → Keeps P (decrypt_aes_cbc c.library secret token)
    unfolding decrypt_aes_cbc decrypt_bytes
    decrypt_aes_cbc-Keeps token = search keeps_rules depth 8

    check_request_token-Keeps :
        (token : Bytes) (parameters : Dict String)
        → Keeps P (check_request_token h c secret token parameters)
    unfolding check_request_token
    check_request_token-Keeps token parameters = search (keeps_rules, decrypt_aes_cbc-Keeps)

    serve_command-Keeps :
        (cmd : CommandRpc)
        → ((s : S) → IsSigned cmd s → Keeps P (run_command h c secret cmd))
        → Keeps P (serve_command h c secret cmd)
    unfolding serve_command
    serve_command-Keeps cmd runs =
        Keeps-attempt_result _ _ _ (check_request_token-Keeps cmd.token cmd.parameters)
          (answer-Keeps 400) (λ _ s p checked. runs s (check_request_token-IsSigned cmd s checked))

    pub run_command-Keeps :
        ((command : String) → Keeps P (h.run_shell command))
        → ((file : String) → Keeps P (c.remove_all file))
        → ((file : String) → Keeps P (c.stat file))
        → (cmd : CommandRpc) → Keeps P (run_command h c secret cmd)
    unfolding run_command check_mount_parameters check_file_exists mount_handler delete_credential
    run_command-Keeps shell removes stats cmd =
        search (keeps_rules, answer-Keeps, shell, removes, stats) depth 10

    -- The connector does nothing for a request that is not signed: a predicate on the host that every command
    -- keeps whose token is the encryption of the digest of its parameters, under the secret, is kept by every
    -- request.
    pub serve_http-Keeps :
        (body : Result Bytes)
        → ((cmd : CommandRpc) (s : S) → IsSigned cmd s → Keeps P (run_command h c secret cmd))
        → Keeps P (serve_http h c secret body)
    unfolding serve_http
    serve_http-Keeps body runs = Keeps-attempt _ _ _ (Keeps-lift body) (answer-Keeps 400) (λ bytes.
        Keeps-if _ _ _ (Keeps-pure _) (
          Keeps-attempt _ _ _ (Keeps-lift (c.unmarshal bytes)) (answer-Keeps 400)
            (λ cmd. serve_command-Keeps cmd (runs cmd))))

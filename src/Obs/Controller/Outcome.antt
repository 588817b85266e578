-- ===== src/Obs/Controller/Outcome.antt =====
-- What DeleteVolume of pkg/obs/controllerserver.go knows when it returns without an error.
use huaweicloud_csi_driver.Prelude.{
  ℕ, zero, suc, ◌≡◌, ap, ◌∙◌, ◌⊎◌, inl, inr, ◌==◌, String, true, List, [], ◌∷◌, length, eqb, pos,
}
use huaweicloud_csi_driver.Status.{
  Error, Result, ok, err, wrapping, refuse, internal, invalid_argument, code_of, is_not_found,
  is_not_found_code,
}
use huaweicloud_csi_driver.Effect.{M, pure, fail}
use huaweicloud_csi_driver.Effect.Returns.{
  Returns-bind, Returns-pure, Returns-if, Returns-guard, attempt_cases,
}
use huaweicloud_csi_driver.Config.{CloudCredentials}
use huaweicloud_csi_driver.Obs.Sdk.{ObsCloud, ObsClient}
use huaweicloud_csi_driver.Obs.Driver.{ObsDriver}
use huaweicloud_csi_driver.Obs.Services.Client.{get_obs_client}
use huaweicloud_csi_driver.Obs.Services.Buckets.{get_parallel_fs_bucket, delete_bucket}
use huaweicloud_csi_driver.Obs.Services.Objects.{
  list_objects, delete_listed, delete_rounds, delete_objects, clean_bucket,
}
use huaweicloud_csi_driver.Obs.Controller.{delete_present_bucket, delete_obs}

module _ (C : ObsCloud) (c : CloudCredentials) where
  -- The listing that led to the state `s'` gave no object.
  abbrev pub NothingListed : String → C.State → Type 0
  NothingListed bucket s' = (s : C.State) × (list_objects C c bucket (pos 1000) s ≡ (ok [], s'))

  delete_listed-NothingListed :
      (client : ObsClient) (bucket : String) (keys : List String) (rest : M C.State (Unit {0}))
      (s₀ s s' : C.State)
      → list_objects C c bucket (pos 1000) s₀ ≡ (ok keys, s)
      → ((t : C.State) → rest t ≡ (ok tt, s') → NothingListed bucket s')
      → delete_listed C c client bucket keys rest s ≡ (ok tt, s')
      → NothingListed bucket s'
  unfolding delete_listed
  delete_listed-NothingListed client bucket [] rest s₀ s s' listed others h =
      (s₀, listed ∙ ap (λ t. (ok [], t)) (Returns-pure tt tt s s' h).1)
  delete_listed-NothingListed client bucket (key ∷ keys) rest s₀ s s' listed others h =
      let (output, s₁, _, tested) = Returns-bind _ _ s tt s' h in
      elim (Returns-if (eqb (length output.deleteds) (length (key ∷ keys))) rest
        (fail (refuse internal)) s₁ (ok tt, s') tested) [
          | inl (_, goes_on) ↦ others s₁ goes_on
          | inr (_, refused) ↦ absurd (cc (ap (λ (q : Result (Unit {0}) × C.State). q.0) refused))
        ]

  delete_rounds-NothingListed :
      (rounds : ℕ) (client : ObsClient) (bucket : String) (s s' : C.State)
      → delete_rounds C c rounds client bucket s ≡ (ok tt, s')
      → NothingListed bucket s'
  unfolding delete_rounds
  delete_rounds-NothingListed zero client bucket s s' h =
      absurd (cc (ap (λ (q : Result (Unit {0}) × C.State). q.0) h))
  delete_rounds-NothingListed (suc rounds) client bucket s s' h =
      let (keys, s₁, listed, h₁) = Returns-bind (list_objects C c bucket (pos 1000)) _ s tt s' h in
      delete_listed-NothingListed client bucket keys (delete_rounds C c rounds client bucket) s s₁
        s' listed (λ t. delete_rounds-NothingListed rounds client bucket t s') h₁

  clean_bucket-NothingListed :
      (rounds : ℕ) (bucket : String) (s s' : C.State)
      → clean_bucket C c rounds bucket s ≡ (ok tt, s')
      → NothingListed bucket s'
  unfolding clean_bucket delete_objects
  clean_bucket-NothingListed rounds bucket s s' h =
      let (_, s₁, _, h₁) = Returns-bind _ _ s tt s' h in
      let (client, s₂, _, h₂) = Returns-bind (get_obs_client C c) _ s₁ tt s' h₁ in
      delete_rounds-NothingListed rounds client bucket s₂ s' h₂

module _ (C : ObsCloud) (d : ObsDriver) where
  -- The query by which DeleteVolume found that there is no such bucket.
  abbrev pub WasMissing : String → C.State → C.State → Type 0
  WasMissing name s s' =
      (e : Error) × (get_parallel_fs_bucket C d.cloud name s ≡ (err e, s'))
      × (is_not_found e ≡ true)

  -- The request by which it deleted the bucket, or found that it is missing by now, sent right after a
  -- listing that gave no object.
  abbrev pub WasDeleted : String → C.State → Type 0
  WasDeleted name s' =
      (s₁ : C.State) × NothingListed C d.cloud name s₁
      × ((delete_bucket C d.cloud name s₁ ≡ (ok tt, s'))
          ⊎ ((e : Error) × (delete_bucket C d.cloud name s₁ ≡ (err e, s'))
              × (is_not_found_code (code_of e) ≡ true)))

  delete_present_bucket-WasDeleted :
      (rounds : ℕ) (name : String) (s s' : C.State)
      → delete_present_bucket C d rounds name s ≡ (ok tt, s')
      → WasDeleted name s'
  unfolding delete_present_bucket
  delete_present_bucket-WasDeleted rounds name s s' h =
      let (_, s₁, cleaned, h₁) = Returns-bind (clean_bucket C d.cloud rounds name) _ s tt s' h in
      (
        s₁,
        clean_bucket-NothingListed C d.cloud rounds name s s₁ cleaned,
        elim (attempt_cases (delete_bucket C d.cloud name) _ pure s₁ (ok tt, s') h₁) [
          | inl (_, s₂, sent, given) ↦
              inl (sent ∙ ap (λ t. (ok tt, t)) (Returns-pure tt tt s₂ s' given).1)
          | inr (e, s₂, sent, handled) ↦
              elim (Returns-if (is_not_found_code (code_of e)) (pure tt)
                (fail (wrapping internal e)) s₂ (ok tt, s') handled) [
                  | inl (missing, given) ↦
                      inr
                        (e, sent ∙ ap (λ t. (err e, t)) (Returns-pure tt tt s₂ s' given).1, missing)
                  | inr (_, refused) ↦
                      absurd (cc (ap (λ (q : Result (Unit {0}) × C.State). q.0) refused))
                ]
        ],
      )

  -- Where DeleteVolume returns without an error, there was no such bucket, or its last request deleted the
  -- bucket or found it missing, and was sent right after a listing in which the bucket had no object.
  pub delete_obs-Deleted :
      (rounds : ℕ) (name : String) (s s' : C.State)
      → delete_obs C d rounds name s ≡ (ok tt, s')
      → WasMissing name s s' ⊎ WasDeleted name s'
  unfolding delete_obs
  delete_obs-Deleted rounds name s s' h =
      let (_, h₁) = Returns-guard (name == "") (refuse invalid_argument) _ s tt s' h in
      elim (attempt_cases (get_parallel_fs_bucket C d.cloud name) _ _ s (ok tt, s') h₁) [
        | inl (volume, s₁, _, deleted) ↦
            inr (delete_present_bucket-WasDeleted rounds name s₁ s' deleted)
        | inr (e, s₁, queried, handled) ↦
            elim (Returns-if (is_not_found e) (pure tt) (fail e) s₁ (ok tt, s') handled) [
              | inl (missing, given) ↦
                  inl
                    (e, queried ∙ ap (λ t. (err e, t)) (Returns-pure tt tt s₁ s' given).1, missing)
              | inr (_, refused) ↦
                  absurd (cc (ap (λ (q : Result (Unit {0}) × C.State). q.0) refused))
            ]
      ]

-- ===== src/Obs/Controller/Creation.antt =====
-- What the answers of CreateVolume and ControllerExpandVolume of pkg/obs/controllerserver.go say.
use mathlib.Core.Path.{subst}
use huaweicloud_csi_driver.Prelude.{
  ◌≡◌, ◌≤ℤ◌, ◌<ℤ◌, ltb_ℤ, leb_ℤ, ◌&&◌, arith, refl, sym, ap, ◌∙◌, ◌⊎◌, inl, inr, ◌==◌, eq_iff,
  String, Bool, true, false, not, Option, none, some, ℤ, pos,
}
use huaweicloud_csi_driver.Prelude.Dict.{get}
use huaweicloud_csi_driver.Status.{
  Result, ok, wrapping, refuse, internal, unavailable, invalid_argument, out_of_range, code_of,
  is_not_found_code,
}
use huaweicloud_csi_driver.Effect.{pure, fail, map_error}
use huaweicloud_csi_driver.Effect.Returns.{
  Returns-bind, Returns-map_error, Returns-pure, Returns-if, Returns-guard, attempt_cases,
}
use huaweicloud_csi_driver.Csi
use huaweicloud_csi_driver.Csi.{CreateVolumeRequest, CapacityRange, ExpandRequest, ExpandResponse}
use huaweicloud_csi_driver.Obs.Sdk.{ObsCloud, ObsClient, BucketMetadata}
use huaweicloud_csi_driver.Obs.Driver.{ObsDriver}
use huaweicloud_csi_driver.Obs.Services.Client.{bucket_error, get_obs_client}
use huaweicloud_csi_driver.Obs.Services.Buckets.{
  Bucket, is_parallel_fs_bucket, get_bucket_metadata, get_bucket_capacity, get_parallel_fs_bucket,
  create_bucket, set_bucket_capacity,
}
use huaweicloud_csi_driver.Obs.Controller.{
  build_obs_response, create_new_bucket, create_obs, expand_bucket, expand_range, expand_obs,
}

true_of_not : (b : Bool) → not b ≡ false → b ≡ true
true_of_not true h = refl
true_of_not false h = cc

module _ (C : ObsCloud) (d : ObsDriver) where
  -- What the cloud last reported of a bucket, in the query that led to the state `s'`: it is a parallel file
  -- system, and has this quota.
  abbrev pub Reported : String → ℤ → C.State → Type 0
  Reported name capacity s' =
      (client : ObsClient) × (client' : ObsClient) × (s₁ : C.State) × (s₂ : C.State)
      × (s₃ : C.State) × (metadata : BucketMetadata) × (C.get_bucket_metadata client name s₁
          ≡ (ok metadata, s₂))
      × (metadata.fs_status ≡ "Enabled")
      × (C.get_bucket_quota client' name s₃ ≡ (ok capacity, s'))

  get_parallel_fs_bucket-Reported :
      (name : String) (bucket : Bucket) (s s' : C.State)
      → get_parallel_fs_bucket C d.cloud name s ≡ (ok bucket, s')
      → (bucket.bucket_name ≡ name) × Reported name bucket.capacity s'
  unfolding get_parallel_fs_bucket get_bucket_metadata get_bucket_capacity
  get_parallel_fs_bucket-Reported name bucket s s' h =
      let (metadata, s₁, seen, h₁) =
        Returns-bind (get_bucket_metadata C d.cloud name) _ s bucket s' h in
      let (client, s₂, _, asked) = Returns-bind (get_obs_client C d.cloud) _ s metadata s₁ seen in
      let (enabled, h₂) =
        Returns-guard (not (is_parallel_fs_bucket metadata.fs_status)) (refuse unavailable) _ s₁
          bucket s' h₁ in
      let (capacity, s₃, measured, h₃) =
        Returns-bind (get_bucket_capacity C d.cloud name) _ s₁ bucket s' h₂ in
      let (client', s₄, connected, asked') =
        Returns-bind (get_obs_client C d.cloud) _ s₁ capacity s₃ measured in
      let (same, kept) = Returns-pure _ bucket s₃ s' h₃ in
      (
        sym (ap (λ (b : Bucket). b.bucket_name) same),
        (
          client,
          client',
          s₂,
          s₁,
          s₄,
          metadata,
          Returns-map_error bucket_error (C.get_bucket_metadata client name) s₂ metadata s₁ asked,
          (eq_iff metadata.fs_status "Enabled").0 (true_of_not _ enabled),
          Returns-map_error bucket_error (C.get_bucket_quota client' name) s₄ capacity s₃ asked'
              ∙ (ap (λ t. (ok capacity, t)) kept
                  ∙ ap (λ q. (ok q, s')) (ap (λ (b : Bucket). b.capacity) same)),
        ),
      )

  -- The request that created the bucket was accepted.
  abbrev pub Requested : CreateVolumeRequest → Type 0
  Requested req =
      (s : C.State) × (t : C.State) × (create_bucket C d.cloud req.name (get req.parameters "acl") s
        ≡ (ok tt, t))

  -- A query found the bucket.
  abbrev pub Found : String → Type 0
  Found name =
      (bucket : Bucket) × (s : C.State) × (t : C.State) × (get_parallel_fs_bucket C d.cloud name s
        ≡ (ok bucket, t))

  -- What the answer of a bucket says of it.
  response-Reported :
      (name : String) (bucket : Bucket) (answer : Csi.Volume) (s s₁ s' : C.State)
      → get_parallel_fs_bucket C d.cloud name s ≡ (ok bucket, s₁)
      → pure (build_obs_response bucket) s₁ ≡ (ok answer, s')
      → (answer.volume_id ≡ name) × Reported name answer.capacity_bytes s'
  response-Reported name bucket answer s s₁ s' queried given =
      let (same, kept) = Returns-pure (build_obs_response bucket) answer s₁ s' given in
      let (named, reported) =
        get_parallel_fs_bucket-Reported name bucket s s'
          (queried ∙ ap (λ t. (ok bucket, t)) kept) in
      (
        sym (ap (λ (v : Csi.Volume). v.volume_id) same) ∙ named,
        subst (λ q. Reported name q s') (ap (λ (v : Csi.Volume). v.capacity_bytes) same) reported,
      )

  create_new_bucket-Reported :
      (req : CreateVolumeRequest) (answer : Csi.Volume) (s s' : C.State)
      → create_new_bucket C d req s ≡ (ok answer, s')
      → (answer.volume_id ≡ req.name) × Reported req.name answer.capacity_bytes s' × Requested req
  unfolding create_new_bucket
  create_new_bucket-Reported req answer s s' h =
      let (_, s₁, sent, h₁) = Returns-bind _ _ s answer s' h in
      let (_, s₂, _, h₂) = Returns-bind _ _ s₁ answer s' h₁ in
      let (bucket, s₃, queried, given) = Returns-bind _ _ s₂ answer s' h₂ in
      let (named, reported) = response-Reported req.name bucket answer s₂ s₃ s' queried given in
      (named, reported, (s, s₁, sent))

  -- Where CreateVolume returns a volume, it has the name that was asked for, and the cloud last reported
  -- that its bucket is a parallel file system with the capacity that is answered. The bucket was found
  -- under its name, or the request to create it was accepted.
  pub create_obs-Reported :
      (req : CreateVolumeRequest) (answer : Csi.Volume) (s s' : C.State)
      → create_obs C d req s ≡ (ok answer, s')
      → (answer.volume_id ≡ req.name)
        × Reported req.name answer.capacity_bytes s'
        × (Found req.name ⊎ Requested req)
  unfolding create_obs
  create_obs-Reported req answer s s' h =
      let (_, s₁, _, h₁) = Returns-bind _ _ s answer s' h in
      elim (attempt_cases (get_parallel_fs_bucket C d.cloud req.name) _ _ s₁ (ok answer, s') h₁) [
        | inl (bucket, s₂, queried, given) ↦
            let (named, reported) =
              response-Reported req.name bucket answer s₁ s₂ s' queried given in
            (named, reported, inl (bucket, s₁, s₂, queried))
        | inr (e, s₂, queried, handled) ↦
            elim (Returns-if (is_not_found_code (code_of e)) (create_new_bucket C d req) (fail e) s₂
              (ok answer, s') handled) [
                | inl (_, created) ↦
                    let (named, reported, requested) =
                      create_new_bucket-Reported req answer s₂ s' created in
                    (named, reported, inr requested)
                | inr (_, refused) ↦
                    absurd (cc (ap (λ (q : Result Csi.Volume × C.State). q.0) refused))
              ]
      ]

  -- The request that set the bucket's capacity, and led to the state `s'`, was accepted.
  abbrev pub CapacitySet : String → ℤ → C.State → Type 0
  CapacitySet name capacity s' =
      (client : ObsClient) × (s : C.State) × (C.set_bucket_quota client name capacity s
        ≡ (ok tt, s'))

  set_bucket_capacity-CapacitySet :
      (name : String) (capacity : ℤ) (s s' : C.State)
      → set_bucket_capacity C d.cloud name capacity s ≡ (ok tt, s')
      → pos 0 <ℤ capacity
      → CapacitySet name capacity s'
  unfolding set_bucket_capacity
  set_bucket_capacity-CapacitySet name capacity s s' h positive =
      let (client, s₁, _, h₁) = Returns-bind (get_obs_client C d.cloud) _ s tt s' h in
      elim (Returns-if (leb_ℤ capacity (pos 0)) (pure tt)
        (map_error bucket_error (C.set_bucket_quota client name capacity)) s₁ (ok tt, s') h₁) [
          | inl (small, _) ↦ absurd (ground arith)
          | inr (_, sent) ↦ (
            client,
            s₁,
            Returns-map_error bucket_error (C.set_bucket_quota client name capacity) s₁ tt s' sent,
          )
        ]

  -- What backs an answer of ControllerExpandVolume.
  abbrev pub Backed : String → CapacityRange → ExpandResponse → C.State → Type 0
  Backed volume_id range answer s' =
      (range.required_bytes ≤ℤ answer.capacity_bytes)
      × (pos 0 <ℤ range.required_bytes
          → Reported volume_id answer.capacity_bytes s'
            ⊎ CapacitySet volume_id answer.capacity_bytes s')

  expand_bucket-Backed :
      (volume_id : String) (range : CapacityRange) (answer : ExpandResponse) (s s' : C.State)
      → expand_bucket C d volume_id range s ≡ (ok answer, s')
      → Backed volume_id range answer s'
  unfolding expand_bucket
  expand_bucket-Backed volume_id range answer s s' h =
      let (_, h₁) =
        Returns-guard
          (ltb_ℤ (pos 0) range.limit_bytes && ltb_ℤ range.limit_bytes range.required_bytes)
          (refuse out_of_range) _ s answer s' h in
      let (bucket, s₁, queried, h₂) =
        Returns-bind (get_parallel_fs_bucket C d.cloud volume_id) _ s answer s' h₁ in
      elim (Returns-if (leb_ℤ range.required_bytes bucket.capacity) _ _ s₁ (ok answer, s') h₂) [
        | inl (enough, given) ↦
            let (same, kept) = Returns-pure _ answer s₁ s' given in
            let (_, reported) =
              get_parallel_fs_bucket-Reported volume_id bucket s s'
                (queried ∙ ap (λ t. (ok bucket, t)) kept) in
            let large : range.required_bytes ≤ℤ bucket.capacity = ground arith in
            (rw (← same) large, λ _. inl (rw (← same) reported))
        | inr (_, resized) ↦
            let (_, s₂, set, given) = Returns-bind _ _ s₁ answer s' resized in
            let (same, kept) = Returns-pure _ answer s₂ s' given in
            let sent =
              Returns-map_error (wrapping internal)
                (set_bucket_capacity C d.cloud volume_id range.required_bytes) s₁ tt s₂ set in
            let sent' = sent ∙ ap (λ t. (ok tt, t)) kept in
            (
              rw (← same) (omega arith),
              λ positive. inr (
                  rw (← same) (
                    set_bucket_capacity-CapacitySet volume_id range.required_bytes s₁ s' sent'
                      positive)),
            )
      ]

  expand_range-Backed :
      (volume_id : String) (asked : Option CapacityRange) (answer : ExpandResponse) (s s' : C.State)
      → expand_range C d volume_id asked s ≡ (ok answer, s')
      → (range : CapacityRange) × (asked ≡ some range) × Backed volume_id range answer s'
  unfolding expand_range
  expand_range-Backed volume_id none answer s s' refused =
      absurd (cc (ap (λ (q : Result ExpandResponse × C.State). q.0) refused))
  expand_range-Backed volume_id (some range) answer s s' expanded =
      (range, refl, expand_bucket-Backed volume_id range answer s s' expanded)

  -- Where ControllerExpandVolume returns without an error, the request had a capacity range, and the answer
  -- has at least the bytes that it requires. If it requires any, the answer is the capacity that the cloud
  -- last reported, or the one that the last request set.
  pub expand_obs-Backed :
      (req : ExpandRequest) (answer : ExpandResponse) (s s' : C.State)
      → expand_obs C d req s ≡ (ok answer, s')
      → (range : CapacityRange) × (req.capacity_range ≡ some range)
        × Backed req.volume_id range answer s'
  unfolding expand_obs
  expand_obs-Backed req answer s s' h =
      let (_, h₁) = Returns-guard (req.volume_id == "") (refuse invalid_argument) _ s answer s' h in
      expand_range-Backed req.volume_id req.capacity_range answer s s' h₁

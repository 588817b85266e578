-- ===== src/Evs/Controller/Create/Outcome.antt =====
-- What CreateVolume of pkg/evs/controllerserver.go knows of the volume that it answers.
use huaweicloud_csi_driver.Prelude.{
  ◌≡◌, refl, sym, ap, ◌∙◌, ◌⊎◌, inl, inr, String, Option, none, some, List, [], ◌∷◌, ℤ, pos, eqb_ℤ,
  eqb_ℤ→eq,
}
use huaweicloud_csi_driver.Prelude.Dict.{get}
use huaweicloud_csi_driver.Status.{Result, ok, refuse, wrapping, internal, already_exists}
use huaweicloud_csi_driver.Effect.{pure, fail, attempt, map_error}
use huaweicloud_csi_driver.Effect.Returns.{
  Returns-bind, Returns-map_error, Returns-pure, Returns-if,
}
use huaweicloud_csi_driver.Config.{CloudCredentials, ServiceClient}
use huaweicloud_csi_driver.Config.Clients.{client_at}
use huaweicloud_csi_driver.Config.Available.{get_evs_v2_client_lem}
use huaweicloud_csi_driver.Csi
use huaweicloud_csi_driver.Csi.{VolumeCapability, CreateVolumeRequest}
use huaweicloud_csi_driver.Evs.Sdk.{Cloud, Volume}
use huaweicloud_csi_driver.Evs.Driver.{EvsDriver}
use huaweicloud_csi_driver.Evs.Services.Volumes.{
  list_volumes, check_volume_exists, same_name, get_volume, query_error,
}
use huaweicloud_csi_driver.Evs.Controller.Create.{
  requested_gb, build_create_volume_response, create_opts, create_by_size, create_new,
  create_or_reuse, create_volume,
}

module _ (C : Cloud) where
  get_volume_lem :
      (credentials : CloudCredentials) (id : String) (s : C.State)
      → get_volume C credentials id s
        ≡ map_error query_error (C.volumes_get (client_at credentials "evs" "v2") id) s
  unfolding get_volume attempt
  get_volume_lem credentials id s = rw (get_evs_v2_client_lem credentials) refl

module _ (C : Cloud) (d : EvsDriver) where
  -- A volume that was created: the request for one with the options of `req` returned an id, and the
  -- last query of that id, which led to the state `s'`, returned the volume of the answer.
  abbrev pub Created : CreateVolumeRequest → Csi.Volume → C.State → Type 0
  Created req answer s' =
      (snapshot_id : String) × (io : ℤ × ℤ) × (id : String) × (volume : Volume)
      × (client : ServiceClient) × (s₁ : C.State) × (s₂ : C.State) × (create_by_size C
            d.cloud_credentials (create_opts C d req snapshot_id io) s₁
          ≡ (ok id, s₂))
      × (C.volumes_get client id s₂ ≡ (ok volume, s'))
      × (answer ≡ build_create_volume_response volume (get req.parameters "dssId"))

  -- A volume that was there: the only one that the query by name, which led to the state `s'`, returned.
  abbrev pub Reused : CreateVolumeRequest → Csi.Volume → C.State → Type 0
  Reused req answer s' =
      (volume : Volume) × (s₁ : C.State) × (list_volumes C d.cloud_credentials
          (record { name = req.name; marker = ""; limit = pos 0 }) s₁
        ≡ (ok (volume ∷ []), s'))
      × (requested_gb req.capacity_range ≡ volume.size)
      × (answer ≡ build_create_volume_response volume (get req.parameters "dssId"))

  create_new-Created :
      (req : CreateVolumeRequest) (answer : Csi.Volume) (s s' : C.State)
      → create_new C d req s ≡ (ok answer, s')
      → Created req answer s'
  unfolding create_new
  create_new-Created req answer s s' h =
      let (snapshot_id, s₁, _, h₁) = Returns-bind _ _ s answer s' h in
      let (io, s₂, _, h₂) = Returns-bind _ _ s₁ answer s' h₁ in
      let (id, s₃, sent, h₃) = Returns-bind _ _ s₂ answer s' h₂ in
      let (volume, s₄, found, given) =
        Returns-bind (get_volume C d.cloud_credentials id) _ s₃ answer s' h₃ in
      let (same, kept) =
        Returns-pure (build_create_volume_response volume (get req.parameters "dssId")) answer s₄ s'
          given in
      let created =
        Returns-map_error (wrapping internal)
          (create_by_size C d.cloud_credentials (create_opts C d req snapshot_id io)) s₂ id s₃
          sent in
      let asked = get_volume_lem C d.cloud_credentials id s₃ in
      (
        snapshot_id,
        io,
        id,
        volume,
        client_at d.cloud_credentials "evs" "v2",
        s₂,
        s₃,
        created,
        Returns-map_error query_error (C.volumes_get (client_at d.cloud_credentials "evs" "v2") id)
            s₃ volume s' (sym asked ∙ (found ∙ ap (λ u. (ok volume, u)) kept)),
        sym same,
      )

  same_name-found :
      (size : ℤ) (volumes : List Volume) (found : Option Volume) (s s' : C.State)
      → same_name size volumes s ≡ (ok found, s')
      → (none ≡ found)
        ⊎ ((volume : Volume) × (volumes ≡ volume ∷ [])
            × (size ≡ volume.size)
            × (some volume ≡ found)
            × (s ≡ s'))
  unfolding same_name
  same_name-found size [] found s s' h = inl (Returns-pure none found s s' h).0
  same_name-found size (volume ∷ []) found s s' h =
      elim (Returns-if (eqb_ℤ size volume.size) (pure (some volume)) (fail (refuse already_exists))
        s _ h) [
          | inl (same, given) ↦
              let (is_found, kept) = Returns-pure (some volume) found s s' given in
              inr (volume, refl, eqb_ℤ→eq size volume.size same, is_found, kept)
          | inr (other, refused) ↦
              absurd (cc (ap (λ (q : Result (Option Volume) × C.State). q.0) refused))
        ]
  same_name-found size (volume ∷ other ∷ rest) found s s' h =
      absurd (cc (ap (λ (q : Result (Option Volume) × C.State). q.0) h))

  from_found :
      (req : CreateVolumeRequest) (answer : Csi.Volume) (found : Option Volume)
      (volumes : List Volume) (s₁ s₂ s₃ s' : C.State)
      → list_volumes C d.cloud_credentials
          (record { name = req.name; marker = ""; limit = pos 0 })
          s₁
        ≡ (ok volumes, s₂)
      → same_name (requested_gb req.capacity_range) volumes s₂ ≡ (ok found, s₃)
      → create_or_reuse C d req found s₃ ≡ (ok answer, s')
      → Created req answer s' ⊎ Reused req answer s'
  unfolding create_or_reuse
  from_found req answer none volumes s₁ s₂ s₃ s' listed tested h =
      inl (create_new-Created req answer s₃ s' h)
  from_found req answer (some vol) volumes s₁ s₂ s₃ s' listed tested h =
      elim (same_name-found (requested_gb req.capacity_range) volumes (some vol) s₂ s₃ tested) [
        | inl impossible ↦ absurd (cc impossible)
        | inr (volume, only, size, is_found, kept) ↦
            let (same, ends) =
              Returns-pure (build_create_volume_response vol (get req.parameters "dssId")) answer s₃
                s' h in
            let is_vol : volume ≡ vol = cc is_found in
            inr (
              volume,
              s₁,
              listed ∙ (ap (λ v. (ok v, s₂)) only ∙ ap (λ u. (ok (volume ∷ []), u)) (kept ∙ ends)),
              size,
              sym same
                  ∙ ap (λ v. build_create_volume_response v (get req.parameters "dssId"))
                      (sym is_vol),
            )
      ]

  -- Where CreateVolume returns a volume, either it was created, and the answer is what the cloud then
  -- reported of it, or it is the only one that had the name, and it has the size asked for.
  pub create_volume-Created :
      (req : CreateVolumeRequest) (answer : Csi.Volume) (s s' : C.State)
      → create_volume C d req s ≡ (ok answer, s')
      → Created req answer s' ⊎ Reused req answer s'
  unfolding create_volume check_volume_exists
  create_volume-Created req answer s s' h =
      let (_, s₁, valid, h₁) = Returns-bind _ _ s answer s' h in
      let (found, s₂, checked, h₂) = Returns-bind _ _ s₁ answer s' h₁ in
      let check =
        Returns-map_error (wrapping internal)
          (check_volume_exists C d.cloud_credentials req.name (requested_gb req.capacity_range)) s₁
          found s₂ checked in
      let (volumes, s₃, listed, tested) = Returns-bind _ _ s₁ found s₂ check in
      let list =
        Returns-map_error (wrapping internal)
          (list_volumes C d.cloud_credentials
            (record { name = req.name; marker = ""; limit = pos 0 }))
          s₁ volumes s₃ listed in
      from_found req answer found volumes s₁ s₃ s₂ s' list tested h₂

-- ===== src/Evs/Services/Jobs.antt =====
-- What a service knows once a job is finished: waitForJobFinished of pkg/evs/services/volumes.go, and
-- the requests that start a job.
use huaweicloud_csi_driver.Prelude.{
  ◌≡◌, refl, ap, sym, ◌∙◌, eq_iff, String, Bool, true, false, if◌then◌else◌, ℤ,
}
use huaweicloud_csi_driver.Status.{Result, ok, refuse, status, internal}
use huaweicloud_csi_driver.Effect.{M, attempt, fail, in_closure, pure, assign, ◌>>◌}
use huaweicloud_csi_driver.Effect.Returns.{
  Returns-bind, Returns-attempt, Returns-map_error, Returns-with_variable,
}
use huaweicloud_csi_driver.Common.{IsTimer}
use huaweicloud_csi_driver.Common.Waiting.{Polls-done, Polls-wait_for_completed}
use huaweicloud_csi_driver.Config.{CloudCredentials, ServiceClient}
use huaweicloud_csi_driver.Evs.Sdk.{Cloud, CreateOpts, Job}
use huaweicloud_csi_driver.Evs.Services.Volumes.{
  job_condition, wait_for_job_finished, create_volume_completed, expand_volume,
}

module _ (C : Cloud) (credentials : CloudCredentials) where
  -- The query of the job that led to the state `s'` reported success, with the volume `id`.
  abbrev pub Succeeded : String → String → C.State → Type 0
  Succeeded job_id id s' =
      (client : ServiceClient) × (s : C.State) × (job : Job) × (C.evs_job client job_id s
        ≡ (ok job, s'))
      × (job.status ≡ "SUCCESS")
      × (job.volume_id ≡ id)

  -- The closure's tests, once the job is known.
  job_tests-done :
      (success failure : Bool) (job : Job) (t t' : C.State × String)
      → (if success
            then assign job.volume_id >> pure true
            else if failure
            then fail (status internal job.detail)
            else pure false)
          t
        ≡ (ok true, t')
      → (success ≡ true) × (t' ≡ (t.0, job.volume_id))
  unfolding attempt
  job_tests-done true failure job t t' h =
      (refl, sym (ap (λ (q : Result Bool × (C.State × String)). q.1) h))
  job_tests-done false true job t t' h =
      absurd (cc (ap (λ (q : Result Bool × (C.State × String)). q.0) h))
  job_tests-done false false job t t' h =
      absurd (cc (ap (λ (q : Result Bool × (C.State × String)). q.0) h))

  in_closure-ok :
      {A : Type 0} (m : M C.State A) (t t' : C.State × String) (a : A)
      → in_closure m t ≡ (ok a, t')
      → m t.0 ≡ (ok a, t'.0)
  in_closure-ok m t t' a h = ap (λ (q : Result _ × (C.State × String)). (q.0, q.1.0)) h

  -- A poll that is done saw the job succeed, and assigned its volume.
  job_condition-Succeeded :
      (client : ServiceClient) (job_id : String) (t t' : C.State × String)
      → job_condition C credentials client job_id t ≡ (ok true, t')
      → Succeeded job_id t'.1 t'.0
  unfolding job_condition
  job_condition-Succeeded client job_id t t' h =
      let (job, t₁, asked, tested) =
        Returns-attempt (in_closure (C.evs_job client job_id)) (λ _. refuse internal) _ t true t'
          h in
      let (success, assigned) = job_tests-done _ _ job t₁ t' tested in
      (
        client,
        t.0,
        job,
        in_closure-ok (C.evs_job client job_id) t t₁ job asked
            ∙ ap (λ (u : C.State × String). (ok job, u.0)) (sym assigned),
        (eq_iff job.status "SUCCESS").0 success,
        sym (ap (λ (u : C.State × String). u.1) assigned),
      )

  wait_for_job_finished-Succeeded :
      (lawful : IsTimer C.timer) (job_id id : String) (s s' : C.State)
      → wait_for_job_finished C credentials job_id s ≡ (ok id, s')
      → Succeeded job_id id s'
  unfolding wait_for_job_finished
  wait_for_job_finished-Succeeded lawful job_id id s s' h =
      let (client, s₁, got, waited) = Returns-bind _ _ s id s' h in
      let ended = Returns-with_variable _ _ s₁ id s' waited in
      let polls =
        Polls-wait_for_completed C.timer lawful (job_condition C credentials client job_id)
          (s₁, "") in
      let (t, last) =
        Polls-done (job_condition C credentials client job_id) 30 (s₁, "") (s', id) (ok tt)
          (rw ended at polls) refl in
      job_condition-Succeeded client job_id t (s', id) last

module _ (C : Cloud) (credentials : CloudCredentials) (lawful : IsTimer C.timer) where
  -- Where CreateVolumeCompleted returns an id, the cloud accepted the request with the options that
  -- were given, and the last query of the job that it named reported success with that id.
  pub create_volume_completed-Succeeded :
      (opts : CreateOpts) (id : String) (s s' : C.State)
      → create_volume_completed C credentials opts s ≡ (ok id, s')
      → (client : ServiceClient) × (job_id : String) × ((C.volumes_create client opts s).0
          ≡ ok job_id)
        × Succeeded C credentials job_id id s'
  unfolding create_volume_completed
  create_volume_completed-Succeeded opts id s s' h =
      let (client, s₁, got, created) = Returns-bind _ _ s id s' h in
      let (job_id, s₂, accepted, waited) = Returns-bind _ _ s₁ id s' created in
      let answered = Returns-map_error _ (C.volumes_create client opts) s₁ job_id s₂ accepted in
      let same : s ≡ s₁ = ap (λ (q : Result ServiceClient × C.State). q.1) got in
      (
        client,
        job_id,
        ap (λ u. (C.volumes_create client opts u).0) same
            ∙ ap (λ (q : Result String × C.State). q.0) answered,
        wait_for_job_finished-Succeeded C credentials lawful job_id id s₂ s' waited,
      )

  -- The same of ExpandVolume: where it returns, the request to extend the volume to the new size was
  -- accepted, and the last query of its job reported success.
  pub expand_volume-Succeeded :
      (id : String) (new_size : ℤ) (s s' : C.State)
      → expand_volume C credentials id new_size s ≡ (ok tt, s')
      → (client : ServiceClient) × (job_id volume_id : String) × ((C.volumes_extend client id
            new_size s).0
          ≡ ok job_id)
        × Succeeded C credentials job_id volume_id s'
  unfolding expand_volume
  expand_volume-Succeeded id new_size s s' h =
      let (client, s₁, got, rest) = Returns-bind _ _ s tt s' h in
      let (job_id, s₂, accepted, waiting) = Returns-bind _ _ s₁ tt s' rest in
      let (volume_id, s₃, waited, last) = Returns-bind _ _ s₂ tt s' waiting in
      let answered =
        Returns-map_error _ (C.volumes_extend client id new_size) s₁ job_id s₂ accepted in
      let same : s ≡ s₁ = ap (λ (q : Result ServiceClient × C.State). q.1) got in
      let end : s₃ ≡ s' = ap (λ (q : Result (Unit {0}) × C.State). q.1) last in
      (
        client,
        job_id,
        volume_id,
        ap (λ u. (C.volumes_extend client id new_size u).0) same
            ∙ ap (λ (q : Result String × C.State). q.0) answered,
        rw end at
            (wait_for_job_finished-Succeeded C credentials lawful job_id volume_id s₂ s₃ waited),
      )

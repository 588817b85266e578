-- ===== src/SfsTurbo/Controller/Outcome.antt =====
-- What has become of the share when a call of the SFS Turbo controller returns.

use huaweicloud_csi_driver.Prelude.{
  ◌≡◌, refl, sym, ap, ◌∙◌, ◌==◌, String, Bool, true, false, ℤ, eqb_ℤ, eqb_ℤ→eq, inl, inr,
}
use huaweicloud_csi_driver.Status.{
  Error, Result, ok, err, refuse, wrapping, is_not_found, internal, invalid_argument,
}
use huaweicloud_csi_driver.Effect.{pure, fail, attempt}
use huaweicloud_csi_driver.Effect.Returns.{
  Returns-bind, Returns-pure, Returns-guard, Returns-if, attempt_cases,
}
use huaweicloud_csi_driver.Common.{IsTimer}
use huaweicloud_csi_driver.Common.Waiting.{Polls-done, Polls-wait_for_completed}
use huaweicloud_csi_driver.Config.{CloudCredentials, ServiceClient}
use huaweicloud_csi_driver.Config.Clients.{client_at}
use huaweicloud_csi_driver.Config.Available.{get_sfs_turbo_v1_client_lem}
use huaweicloud_csi_driver.SfsTurbo.Sdk.{TurboCloud, Turbo}
use huaweicloud_csi_driver.SfsTurbo.Driver.{SfsTurboDriver}
use huaweicloud_csi_driver.SfsTurbo.Services.{
  size_of, get_share, gone_or_error, absent_or_error, delete_present, delete_share_completed,
  deleted_condition, wait_for_share_deleted, expand_share_completed,
}
use huaweicloud_csi_driver.SfsTurbo.Controller.Search.{size_of-Returns}
use huaweicloud_csi_driver.SfsTurbo.Controller.Calls.{delete_turbo}

module _ (C : TurboCloud) where
  get_share_lem :
      (credentials : CloudCredentials) (id : String) (s : C.State)
      → get_share C credentials id s ≡ C.shares_get (client_at credentials "sfs-turbo" "v1") id s
  unfolding get_share attempt
  get_share_lem credentials id s = rw (get_sfs_turbo_v1_client_lem credentials) refl

-- The last query of the share `id` led to the state `s'`, and found that there is none.
abbrev pub Gone : (C : TurboCloud) → String → C.State → Type 0
Gone C id s' =
    (client : ServiceClient) × (s : C.State) × (e : Error) × (C.shares_get client id s
      ≡ (err e, s'))
    × (is_not_found e ≡ true)

module _ (C : TurboCloud) (lawful : IsTimer C.timer) where
  missing-Gone :
      (credentials : CloudCredentials) (id : String) (s s' : C.State) (e : Error)
      → is_not_found e ≡ true
      → get_share C credentials id s ≡ (err e, s')
      → Gone C id s'
  missing-Gone credentials id s s' e missing failed = (
    client_at credentials "sfs-turbo" "v1",
    s,
    e,
    sym (get_share_lem C credentials id s) ∙ failed,
    missing,
  )

  deleted_condition-Gone :
      (credentials : CloudCredentials) (id : String) (s s' : C.State)
      → deleted_condition C credentials id s ≡ (ok true, s')
      → Gone C id s'
  unfolding deleted_condition
  deleted_condition-Gone credentials id s s' h =
      elim (attempt_cases (get_share C credentials id) (gone_or_error C credentials)
        (λ share. pure false) s _ h) [
          | inl (share, s₁, found, answered) ↦
              absurd (cc (ap (λ (q : Result Bool × C.State). q.0) answered))
          | inr (e, s₁, failed, answered) ↦
              elim (Returns-if (is_not_found e) (pure true) (fail (wrapping internal e)) s₁ _
                answered) [
                  | inl (missing, given) ↦
                      missing-Gone credentials id s s' e missing
                        (rw (Returns-pure true true s₁ s' given).1 at failed)
                  | inr (other, refused) ↦
                      absurd (cc (ap (λ (q : Result Bool × C.State). q.0) refused))
                ]
        ]

  delete_present-Gone :
      (credentials : CloudCredentials) (id : String) (s s' : C.State)
      → delete_present C credentials id s ≡ (ok tt, s')
      → Gone C id s'
  unfolding delete_present wait_for_share_deleted
  delete_present-Gone credentials id s s' h =
      let (_, s₁, deleted, waited) = Returns-bind _ _ s tt s' h in
      let polls = Polls-wait_for_completed C.timer lawful (deleted_condition C credentials id) s₁ in
      let (t, last) =
        Polls-done (deleted_condition C credentials id) 30 s₁ s' (ok tt) (rw waited at polls)
          refl in
      deleted_condition-Gone credentials id t s' last

  delete_share_completed-Gone :
      (credentials : CloudCredentials) (id : String) (s s' : C.State)
      → delete_share_completed C credentials id s ≡ (ok tt, s')
      → Gone C id s'
  unfolding delete_share_completed
  delete_share_completed-Gone credentials id s s' h =
      elim (attempt_cases (get_share C credentials id) (absent_or_error C credentials)
        (λ share. delete_present C credentials id) s _ h) [
          | inl (share, s₁, found, deleted) ↦ delete_present-Gone credentials id s₁ s' deleted
          | inr (e, s₁, failed, answered) ↦
              elim (Returns-if (is_not_found e) (pure tt) (fail (wrapping internal e)) s₁ _
                answered) [
                  | inl (missing, given) ↦
                      missing-Gone credentials id s s' e missing
                        (rw (Returns-pure tt tt s₁ s' given).1 at failed)
                  | inr (other, refused) ↦
                      absurd (cc (ap (λ (q : Result (Unit {0}) × C.State). q.0) refused))
                ]
        ]

  -- Where DeleteVolume returns without an error, the last query of the share found that there is none.
  pub delete_turbo-Gone :
      (d : SfsTurboDriver) (volume_id : String) (s s' : C.State)
      → delete_turbo C d volume_id s ≡ (ok tt, s')
      → Gone C volume_id s'
  unfolding delete_turbo
  delete_turbo-Gone d volume_id s s' h =
      let (named, deleted) =
        Returns-guard (volume_id == "") (refuse invalid_argument)
          (delete_share_completed C d.cloud volume_id) s tt s' h in
      delete_share_completed-Gone d.cloud volume_id s s' deleted

-- The last query of the share `id` led to the state `s'`, and found the share with the size.
abbrev pub Sized : (C : TurboCloud) → String → ℤ → C.State → Type 0
Sized C id size s' =
    (client : ServiceClient) × (s : C.State) × (share : Turbo) × (number : C.float64.Float)
    × (C.shares_get client id s ≡ (ok share, s'))
    × (C.float64.parse_float share.size ≡ ok number)
    × (C.float64.to_int number ≡ size)

module _ (C : TurboCloud) where
  -- Where ExpandShareCompleted returns without an error, the last query of the share gave the size that
  -- was asked for.
  pub expand_share_completed-Sized :
      (credentials : CloudCredentials) (id : String) (new_size : ℤ) (s s' : C.State)
      → expand_share_completed C credentials id new_size s ≡ (ok tt, s')
      → Sized C id new_size s'
  unfolding expand_share_completed
  expand_share_completed-Sized credentials id new_size s s' h =
      let (_, s₁, sent, h₁) = Returns-bind _ _ s tt s' h in
      let (_, s₂, waited, h₂) = Returns-bind _ _ s₁ tt s' h₁ in
      let (share, s₃, found, h₃) = Returns-bind _ _ s₂ tt s' h₂ in
      let (size, s₄, read, h₄) = Returns-bind (size_of C share.size) _ s₃ tt s' h₃ in
      let (number, parsed, cut, kept) = size_of-Returns C share.size s₃ s₄ size read in
      elim (Returns-if (eqb_ℤ size new_size) (pure tt) (fail (refuse internal)) s₄ _ h₄) [
        | inl (same, given) ↦
            let last : s₃ ≡ s' = kept ∙ (Returns-pure tt tt s₄ s' given).1 in
            (
              client_at credentials "sfs-turbo" "v1",
              s₂,
              share,
              number,
              sym (get_share_lem C credentials id s₂) ∙ (rw last at found),
              parsed,
              cut ∙ eqb_ℤ→eq size new_size same,
            )
        | inr (other, refused) ↦ absurd (cc (ap (λ (q : Result (Unit {0}) × C.State). q.0) refused))
      ]

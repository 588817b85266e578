-- ===== src/Common/Waiting.antt =====
-- What polling returns, as a relation over the polls that were made.
use huaweicloud_csi_driver.Prelude.{ℕ, zero, suc, refl, ap, ◌≡◌, Bool, true, false}
use huaweicloud_csi_driver.Status.{Error, Result, ok, err, wait_timeout}
use huaweicloud_csi_driver.Effect.{M, attempt}
use huaweicloud_csi_driver.Effect.Keeps.{Keeps}
use huaweicloud_csi_driver.Common.{Timer, IsTimer, poll, wait_for_completed}

-- `Polls condition n s r s'`: with at most `n` polls from `s`, waiting ends with `r` in `s'`.
pub data Polls {S : Type 0} (condition : M S Bool) : ℕ → S → Result (Unit {0}) → S → Type 0 where
  timeout : (s : S) → Polls condition 0 s (err wait_timeout) s
  done : (n : ℕ) (s s' : S) → condition s ≡ (ok true, s') → Polls condition (suc n) s (ok tt) s'
  failed :
      (n : ℕ) (s s' : S) (e : Error)
      → condition s ≡ (err e, s')
      → Polls condition (suc n) s (err e) s'
  again :
      (n : ℕ) (s s₁ s' : S) (r : Result (Unit {0}))
      → condition s ≡ (ok false, s₁)
      → Polls condition n s₁ r s'
      → Polls condition (suc n) s r s'

-- One more poll in front of a wait.
Polls-poll :
    {S : Type 0} (condition : M S Bool) (rest : M S (Unit {0})) (n : ℕ)
    → ((s : S) → Polls condition n s (rest s).0 (rest s).1)
    → (s : S) → Polls condition (suc n) s (poll condition rest s).0 (poll condition rest s).1
unfolding attempt
Polls-poll {S} condition rest n more s = go (condition s).0 (condition s).1 refl
  where
    go :
        (r : Result Bool) (s₁ : S)
        → condition s ≡ (r, s₁)
        → let q : Result (Unit {0}) × S = poll (λ _. (r, s₁)) rest s in
          Polls condition (suc n) s q.0 q.1
    go (ok true) s₁ e = done n s s₁ e
    go (ok false) s₁ e = again n s s₁ _ _ e (more s₁)
    go (err x) s₁ e = failed n s s₁ x e

module _ (t : Timer) (lawful : IsTimer t) {S : Type 0} (condition : M S Bool) where
  -- Waiting makes at most `steps` polls: it ends with success right after the first poll that is
  -- done, with the error of the first poll that fails, and with a timeout if neither comes.
  pub Polls-exponential_backoff :
      (duration factor steps : ℕ) (s : S)
      → let (r, s') =
          t.exponential_backoff S
            (record { duration = duration; factor = factor; steps = steps })
            condition
            s in
        Polls condition steps s r s'
  Polls-exponential_backoff duration factor zero s =
      rw (lawful.times_out S duration factor condition s) (timeout s)
  Polls-exponential_backoff duration factor (suc steps) s =
      let (next, step) = lawful.polls S duration factor steps condition in
      rw (step s) (Polls-poll condition _ steps (Polls-exponential_backoff next factor steps) s)

  -- The wait of `WaitForCompleted` makes at most thirty polls: it ends with success right after the
  -- first poll that is done, with the error of the first poll that fails, and with a timeout if neither
  -- comes.
  pub Polls-wait_for_completed :
      (s : S) → let (r, s') = wait_for_completed t condition s in Polls condition 30 s r s'
  unfolding wait_for_completed
  Polls-wait_for_completed s = Polls-exponential_backoff 2 102 30 s

-- A wait that succeeds ends right after a poll that was done.
pub Polls-done :
    {S : Type 0} (condition : M S Bool) (n : ℕ) (s s' : S) (r : Result (Unit {0}))
    → Polls condition n s r s'
    → r ≡ ok tt
    → (s₀ : S) × (condition s₀ ≡ (ok true, s'))
Polls-done condition n s s' r (timeout _) e = absurd (cc e)
Polls-done condition n s s' r (done _ _ _ h) e = (s, h)
Polls-done condition n s s' r (failed _ _ _ x h) e = absurd (cc e)
Polls-done condition n s s' r (again k _ s₁ _ _ h more) e = Polls-done condition k s₁ s' r more e

Keeps-Polls :
    {S : Type 0} {P : S → Type 0} {condition : M S Bool} {n : ℕ} {s s' : S} {r : Result (Unit {0})}
    → Keeps P condition
    → Polls condition n s r s'
    → P s
    → P s'
Keeps-Polls {S = S} k (timeout s) h = h
Keeps-Polls {S = S} k (done n s s' e) h = rw (ap (λ (q : Result Bool × S). q.1) e) at (k.at s h)
Keeps-Polls {S = S} k (failed n s s' x e) h = rw (ap (λ (q : Result Bool × S). q.1) e) at (k.at s h)
Keeps-Polls {S = S} k (again n s s₁ s' r e more) h =
    Keeps-Polls k more (rw (ap (λ (q : Result Bool × S). q.1) e) at (k.at s h))

-- Waiting keeps what one poll keeps.
pub Keeps-exponential_backoff :
    {S : Type 0} {P : S → Type 0} (t : Timer) (condition : M S Bool)
    → IsTimer t
    → Keeps P condition
    → (duration factor steps : ℕ)
    → Keeps P (
        t.exponential_backoff S
          (record { duration = duration; factor = factor; steps = steps })
          condition)
Keeps-exponential_backoff t condition lawful k duration factor steps = record {
  at =
      λ s h. Keeps-Polls k (Polls-exponential_backoff t lawful condition duration factor steps s) h;
}

pub Keeps-wait_for_completed :
    {S : Type 0} {P : S → Type 0} (t : Timer) (condition : M S Bool)
    → IsTimer t
    → Keeps P condition
    → Keeps P (wait_for_completed t condition)
unfolding wait_for_completed
Keeps-wait_for_completed t condition lawful k =
    Keeps-exponential_backoff t condition lawful k 2 102 30

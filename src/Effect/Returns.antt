-- ===== src/Effect/Returns.antt =====
-- What a function did when it returned a value: each step that it is built of returned one too.
use huaweicloud_csi_driver.Prelude.{
  ◌≡◌, refl, ap, ◌∙◌, Bool, true, false, if◌then◌else◌, ◌⊎◌, inl, inr,
}
use huaweicloud_csi_driver.Status.{Error, Result, ok, err}
use huaweicloud_csi_driver.Effect.{
  M, pure, fail, attempt, ◌>>=◌, map_error, with_variable, deferred,
}

module _ {S A B : Type 0} where
  pub Returns-bind :
      (m : M S A) (g : A → M S B) (s : S) (b : B) (s' : S)
      → (m >>= g) s ≡ (ok b, s')
      → (a : A) × (s₁ : S) × (m s ≡ (ok a, s₁)) × (g a s₁ ≡ (ok b, s'))
  unfolding attempt
  Returns-bind m g s b s' = go (m s).0 (m s).1 refl
    where
      go :
          (r : Result A) (s₁ : S)
          → m s ≡ (r, s₁)
          → attempt (λ (t : S). (r, s₁)) fail g s ≡ (ok b, s')
          → (a : A) × (s₂ : S) × (m s ≡ (ok a, s₂)) × (g a s₂ ≡ (ok b, s'))
      go (ok a) s₁ e h = (a, s₁, e, h)
      go (err x) s₁ e h = absurd (cc (ap (λ (q : Result B × S). q.0) h))

  -- Whatever comes out, the first call returned a value or an error.
  pub attempt_cases :
      (m : M S A) (f : Error → M S B) (g : A → M S B) (s : S) (q : Result B × S)
      → attempt m f g s ≡ q
      → ((a : A) × (s₁ : S) × (m s ≡ (ok a, s₁)) × (g a s₁ ≡ q))
        ⊎ ((e : Error) × (s₁ : S) × (m s ≡ (err e, s₁)) × (f e s₁ ≡ q))
  unfolding attempt
  attempt_cases m f g s q = go (m s).0 (m s).1 refl
    where
      go :
          (r : Result A) (s₁ : S)
          → m s ≡ (r, s₁)
          → attempt (λ (t : S). (r, s₁)) f g s ≡ q
          → ((a : A) × (s₂ : S) × (m s ≡ (ok a, s₂)) × (g a s₂ ≡ q))
            ⊎ ((x : Error) × (s₂ : S) × (m s ≡ (err x, s₂)) × (f x s₂ ≡ q))
      go (ok a) s₁ e h = inl (a, s₁, e, h)
      go (err x) s₁ e h = inr (x, s₁, e, h)

  -- Where every error is passed on in another form.
  pub Returns-attempt :
      (m : M S A) (f : Error → Error) (g : A → M S B) (s : S) (b : B) (s' : S)
      → attempt m (λ e. fail (f e)) g s ≡ (ok b, s')
      → (a : A) × (s₁ : S) × (m s ≡ (ok a, s₁)) × (g a s₁ ≡ (ok b, s'))
  unfolding attempt
  Returns-attempt m f g s b s' = go (m s).0 (m s).1 refl
    where
      go :
          (r : Result A) (s₁ : S)
          → m s ≡ (r, s₁)
          → attempt (λ (t : S). (r, s₁)) (λ e. fail (f e)) g s ≡ (ok b, s')
          → (a : A) × (s₂ : S) × (m s ≡ (ok a, s₂)) × (g a s₂ ≡ (ok b, s'))
      go (ok a) s₁ e h = (a, s₁, e, h)
      go (err x) s₁ e h = absurd (cc (ap (λ (q : Result B × S). q.0) h))

module _ {S A : Type 0} where
  pub Returns-map_error :
      (f : Error → Error) (m : M S A) (s : S) (a : A) (s' : S)
      → map_error f m s ≡ (ok a, s')
      → m s ≡ (ok a, s')
  unfolding attempt
  Returns-map_error f m s a s' h = let (a', s₁, e, h') = Returns-attempt m f _ s a s' h in e ∙ h'

  pub Returns-with_variable :
      (init : A) (m : M (S × A) (Unit {0})) (s : S) (a : A) (s' : S)
      → with_variable init m s ≡ (ok a, s')
      → m (s, init) ≡ (ok tt, (s', a))
  unfolding with_variable
  Returns-with_variable init m s a s' = go (m (s, init)).0 (m (s, init)).1 refl
    where
      go :
          (r : Result (Unit {0})) (t : S × A)
          → m (s, init) ≡ (r, t)
          → with_variable init (λ (u : S × A). (r, t)) s ≡ (ok a, s')
          → m (s, init) ≡ (ok tt, (s', a))
      go (ok tt) (s₁, a₁) e h = cc
      go (err x) t e h = absurd (cc (ap (λ (q : Result A × S). q.0) h))

  pub Returns-pure : (a b : A) (s s' : S) → pure a s ≡ (ok b, s') → (a ≡ b) × (s ≡ s')
  Returns-pure a b s s' h =
      (cc (ap (λ (q : Result A × S). q.0) h), ap (λ (q : Result A × S). q.1) h)

  -- A call was deferred: it followed.
  pub Returns-deferred :
      (cleanup : M S (Unit {0})) (m : M S A) (s : S) (a : A) (s' : S)
      → deferred cleanup m s ≡ (ok a, s')
      → (s₁ : S) × (m s ≡ (ok a, s₁)) × ((cleanup s₁).1 ≡ s')
  Returns-deferred cleanup m s a s' h =
      ((m s).1, ap (λ (q : Result A × S). (q.0, (m s).1)) h, ap (λ (q : Result A × S). q.1) h)

  -- A guard that was passed, and a test that chose between two functions.
  pub Returns-guard :
      (b : Bool) (e : Error) (m : M S A) (s : S) (a : A) (s' : S)
      → (if b then fail e else m) s ≡ (ok a, s')
      → (b ≡ false) × (m s ≡ (ok a, s'))
  Returns-guard true e m s a s' h = absurd (cc (ap (λ (q : Result A × S). q.0) h))
  Returns-guard false e m s a s' h = (refl, h)

  pub Returns-if :
      (b : Bool) (m n : M S A) (s : S) (q : Result A × S)
      → (if b then m else n) s ≡ q
      → ((b ≡ true) × (m s ≡ q)) ⊎ ((b ≡ false) × (n s ≡ q))
  Returns-if true m n s q h = inl (refl, h)
  Returns-if false m n s q h = inr (refl, h)

-- ===== src/Effect/Raises.antt =====
-- The errors that a function can return, one rule for each way to build a function.
use huaweicloud_csi_driver.Prelude.{
  ◌≡◌, refl, ap, ◌∙◌, ◌⊎◌, List, [], ◌∷◌, Bool, true, false, if◌then◌else◌,
}
use huaweicloud_csi_driver.Status.{Code, code_of, Error, Result, ok, err}
use huaweicloud_csi_driver.Effect.{M, pure, fail, lift, attempt, ◌>>=◌}

-- The code of an error is one of a list.
abbrev pub OneOf : List Code → Error → Type 0
OneOf [] e = ⊥
OneOf (code ∷ codes) e = (code_of e ≡ code) ⊎ OneOf codes e

-- Every error that `m` returns is a `Q`.
pub record Raises {S A : Type 0} (Q : Error → Type 0) (m : M S A) : Type 0 where
  pub at : (s : S) (e : Error) → (m s).0 ≡ err e → Q e

module _ {S A : Type 0} {Q : Error → Type 0} where
  pub Raises-pure : (a : A) → Raises {S = S} Q (pure a)
  Raises-pure a = record { at = λ s e h. cc }

  pub Raises-fail : (e : Error) → Q e → Raises {S = S} {A = A} Q (fail e)
  Raises-fail e q = record { at = λ s e' h. let p : e ≡ e' = cc h in rw p at q }

  pub Raises-if : (b : Bool) (m n : M S A) → Raises Q m → Raises Q n → Raises Q (if b then m else n)
  Raises-if true m n km kn = km
  Raises-if false m n km kn = kn

module _ {S A B : Type 0} {Q : Error → Type 0} where
  -- Where the error is handled, only the handler's errors come out.
  pub Raises-attempt :
      (m : M S A) (f : Error → M S B) (g : A → M S B)
      → ((e : Error) → Raises Q (f e))
      → ((a : A) → Raises Q (g a))
      → Raises Q (attempt m f g)
  unfolding attempt
  Raises-attempt m f g kf kg = record { at = λ s. go (m s).0 (m s).1 }
    where
      go : (r : Result A) (s : S) (e : Error) → (attempt (λ (t : S). (r, t)) f g s).0 ≡ err e → Q e
      go (ok a) s e h = (kg a).at s e h
      go (err x) s e h = (kf x).at s e h

  -- Where it is passed on, those of the first call come out too.
  pub Raises-bind :
      (m : M S A) (g : A → M S B) → Raises Q m → ((a : A) → Raises Q (g a)) → Raises Q (m >>= g)
  unfolding attempt
  Raises-bind m g km kg = record { at = λ s. go s (m s).0 (m s).1 refl }
    where
      go :
          (s : S) (r : Result A) (s' : S)
          → m s ≡ (r, s')
          → (e : Error) → (attempt (λ (t : S). (r, s')) fail g s).0 ≡ err e
          → Q e
      go s (ok a) s' p e h = (kg a).at s' e h
      go s (err x) s' p e h = km.at s e (ap (λ (q : Result A × S). q.0) p ∙ cc h)

pub Raises-lift_ok :
    {S A : Type 0} {Q : Error → Type 0} (r : Result A) (a : A)
    → r ≡ ok a
    → Raises {S = S} Q (lift r)
Raises-lift_ok r a e = record { at = λ s x h. cc (e, h) }

pub ruleset raises_rules = (Raises-pure, Raises-fail, Raises-if, Raises-attempt, Raises-bind)

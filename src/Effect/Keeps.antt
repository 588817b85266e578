-- ===== src/Effect/Keeps.antt =====
-- Predicates on the world that a function keeps, one rule for each way to build a function.
use huaweicloud_csi_driver.Prelude.{◌≡◌, refl, Bool, true, false, if◌then◌else◌}
use huaweicloud_csi_driver.Status.{Error, Result, ok, err}
use huaweicloud_csi_driver.Effect.{
  M, pure, fail, lift, attempt, with_variable, assign, in_closure, deferred,
}

-- `m` keeps `P`, whether it returns a value or an error.
pub record Keeps {S A : Type 0} (P : S → Type 0) (m : M S A) : Type 0 where
  pub at : (s : S) → P s → P (m s).1

module _ {S A : Type 0} {P : S → Type 0} where
  pub Keeps-lift : (r : Result A) → Keeps P (lift r)
  Keeps-lift r = record { at = λ s h. h }

  pub Keeps-pure : (a : A) → Keeps P (pure a)
  Keeps-pure a = record { at = λ s h. h }

  pub Keeps-fail : (e : Error) → Keeps P (fail {A = A} e)
  Keeps-fail e = record { at = λ s h. h }

  pub Keeps-deferred :
      (cleanup : M S (Unit {0})) (m : M S A)
      → Keeps P cleanup
      → Keeps P m
      → Keeps P (deferred cleanup m)
  Keeps-deferred cleanup m kc km = record { at = λ s h. kc.at (m s).1 (km.at s h) }

  pub Keeps-if : (b : Bool) (m n : M S A) → Keeps P m → Keeps P n → Keeps P (if b then m else n)
  Keeps-if true m n km kn = km
  Keeps-if false m n km kn = kn

module _ {S A B : Type 0} {P : S → Type 0} where
  Keeps-after :
      (r : Result A) (f : Error → M S B) (g : A → M S B)
      → ((e : Error) → Keeps P (f e))
      → ((a : A) → Keeps P (g a))
      → Keeps P (attempt (lift r) f g)
  unfolding attempt
  Keeps-after (ok a) f g kf kg = kg a
  Keeps-after (err e) f g kf kg = kf e

  pub Keeps-attempt :
      (m : M S A) (f : Error → M S B) (g : A → M S B)
      → Keeps P m
      → ((e : Error) → Keeps P (f e))
      → ((a : A) → Keeps P (g a))
      → Keeps P (attempt m f g)
  unfolding attempt
  Keeps-attempt m f g km kf kg = record {
    at = λ s h. let (r, s') = m s in (Keeps-after r f g kf kg).at s' (km.at s h);
  }

  -- What follows may use the result and that the predicate held before.
  pub Keeps-attempt_result :
      (m : M S A) (f : Error → M S B) (g : A → M S B)
      → Keeps P m
      → ((e : Error) → Keeps P (f e))
      → ((a : A) (s : S) → P s → (m s).0 ≡ ok a → Keeps P (g a))
      → Keeps P (attempt m f g)
  unfolding attempt
  Keeps-attempt_result m f g km kf kg = record {
    at = λ s h. go s h (m s).0 (m s).1 refl (km.at s h);
  }
    where
      go :
          (s : S)
          → P s
          → (r : Result A) (s' : S) → (m s).0 ≡ r
          → P s'
          → P (attempt (λ (t : S). (r, s')) f g s).1
      go s h (ok a) s' e h' = (kg a s h e).at s' h'
      go s h (err x) s' e h' = (kf x).at s' h'

-- The same for a variable in scope, which the predicate does not speak of.
abbrev pub Outside : {S A : Type 0} → (S → Type 0) → S × A → Type 0
Outside P t = P t.0

module _ {S A : Type 0} {P : S → Type 0} where
  pub Keeps-with_variable :
      (init : A) (m : M (S × A) (Unit {0})) → Keeps (Outside P) m → Keeps P (with_variable init m)
  unfolding with_variable
  Keeps-with_variable init m km = record { at = λ s h. km.at (s, init) h }

module _ {S A B : Type 0} {P : S → Type 0} where
  pub Keeps-in_closure : (m : M S B) → Keeps P m → Keeps {S = S × A} (Outside P) (in_closure m)
  Keeps-in_closure m km = record { at = λ t h. km.at t.0 h }

pub Keeps-assign :
    {S A : Type 0} (P : S → Type 0) (a : A) → Keeps {S = S × A} (Outside P) (assign a)
Keeps-assign P a = record { at = λ s h. h }

pub ruleset keeps_rules =
    (Keeps-pure, Keeps-fail, Keeps-lift, Keeps-if, Keeps-attempt, Keeps-deferred)

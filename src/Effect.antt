-- ===== src/Effect.antt =====
-- Go functions that call the cloud and may return an error: the state of the world outside the
-- driver goes in and comes out, also where an error is returned.
pub mod Keeps
pub mod Returns
pub mod Raises
use huaweicloud_csi_driver.Status.{Error, Result, ok, err}

abbrev pub M : Type 0 → Type 0 → Type 0
M S A = S → Result A × S

module _ {S A : Type 0} where
  -- return a, nil
  abbrev pub pure : A → M S A
  pure a s = (ok a, s)

  -- return nil, e
  abbrev pub fail : Error → M S A
  fail e s = (err e, s)

  -- a call that has no effect
  abbrev pub lift : Result A → M S A
  lift r s = (r, s)

module _ {S A B : Type 0} where
  abbrev after : Result A → (Error → M S B) → (A → M S B) → M S B
  after (ok a) on_error next s = next a s
  after (err e) on_error next s = on_error e s

  -- if a, err := m; err != nil { on_error } else { next }
  unfoldable pub attempt : M S A → (Error → M S B) → (A → M S B) → M S B
  attempt m on_error next s = let (r, s') = m s in after r on_error next s'

  infixl 5 ◌>>=◌ ◌>>◌
  -- if a, err := m; err != nil { return nil, err }
  abbrev pub ◌>>=◌ : M S A → (A → M S B) → M S B
  m >>= next = attempt m fail next

  abbrev pub ◌>>◌ : M S A → M S B → M S B
  m >> next = m >>= λ _. next

module _ {S A : Type 0} where
  -- if err != nil { return nil, f(err) }
  abbrev pub map_error : (Error → Error) → M S A → M S A
  map_error f m = attempt m (λ e. fail (f e)) pure

module _ {S A : Type 0} where
  -- A call that is deferred: it runs at the end, also where an error is returned, and its own error is dropped.
  abbrev pub deferred : M S (Unit {0}) → M S A → M S A
  deferred cleanup m s = let (r, s') = m s in (r, (cleanup s').1)

-- A variable that a closure assigns: `init` at first, and its last value at the end.
abbrev last_value : {A : Type 0} → Result (Unit {0}) → A → Result A
last_value (ok _) a = ok a
last_value (err e) a = err e

module _ {S A : Type 0} where
  -- var a = init; err := m(); return a, err
  unfoldable pub with_variable : A → M (S × A) (Unit {0}) → M S A
  with_variable init m s = let (r, t) = m (s, init) in (last_value r t.1, t.0)

  -- a = value
  abbrev pub assign : A → M (S × A) (Unit {0})
  assign value t = (ok tt, (t.0, value))

module _ {S A B : Type 0} where
  -- A call, made where such a variable is in scope.
  abbrev pub in_closure : M S B → M (S × A) B
  in_closure m t = let (r, s') = m t.0 in (r, (s', t.1))

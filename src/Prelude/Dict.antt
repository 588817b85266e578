-- ===== src/Prelude/Dict.antt =====
-- Go's map[string]V as an association list with one entry for each key.
use Prim.Native.String.{String}
use mathlib.Core.Path.{◌≡◌, refl}
use mathlib.Core.Option.{Option, none, some}
use mathlib.Core.List.{List, [], ◌∷◌}
use native.Mathlib.Omega.{arith}
use text.Mathlib.Text.{◌==◌}
use text.Mathlib.TextEquality.{eq_iff}
use huaweicloud_csi_driver.Prelude.Tests.{if◌then◌else◌}

abbrev pub Dict : Type 0 → Type 0
Dict V = List (String × V)

module _ {V : Type 0} where
  -- v, ok := m[key]
  abbrev pub lookup : String → Dict V → Option V
  lookup key [] = none
  lookup key ((other, found) ∷ entries) = if other == key then some found else lookup key entries

  -- m[key] = value, in the place of an entry that there is, or else at the end
  abbrev pub insert : String → V → Dict V → Dict V
  insert key value [] = (key, value) ∷ []
  insert key value ((other, found) ∷ entries) =
      let after = insert key value entries in
      if other == key then (key, value) ∷ entries else (other, found) ∷ after

  pub lookup-insert :
      (key wanted : String) (value : V) (entries : Dict V)
      → lookup wanted (insert key value entries)
        ≡ (if key == wanted then some value else lookup wanted entries)
  lookup-insert key wanted value [] = refl
  lookup-insert key wanted value ((other, found) ∷ entries) =
      let hypothesis = lookup-insert key wanted value entries in
      ground (arith, hypothesis, eq_iff other wanted, eq_iff other key, eq_iff key wanted)

abbrev or_empty : Option String → String
or_empty none = ""
or_empty (some v) = v

-- m[k] of a map[string]string: the empty text where the key is missing
abbrev pub get : Dict String → String → String
get m k = or_empty (lookup k m)

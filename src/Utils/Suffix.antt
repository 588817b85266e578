-- ===== src/Utils/Suffix.antt =====
-- What a text that ends in another has in front of it (strings.HasSuffix and strings.TrimSuffix).

use mathlib.Core.Path.{subst}
use text.Mathlib.TextLemmas.{nil-append, cons-append}
use huaweicloud_csi_driver.Prelude.{
  ◌≡◌, ◌≢◌, refl, sym, ap, ◌∙◌, inl, inr, ◌<>◌, ◌==◌, eq_iff, String, Option, none, some, true,
  Bool-cases,
}
use huaweicloud_csi_driver.Utils.Text.{put_before, before_suffix}

same_text : (a : String) → (a == a) ≡ true
same_text a = (eq_iff a a).1 refl

-- What is found in front of a suffix is in front of it.
pub before_suffix-some :
    (suffix s front : String) → before_suffix suffix s ≡ some front → s ≡ front <> suffix
unfolding before_suffix
before_suffix-some suffix String.[] front h = elim (Bool-cases (suffix == "")) [
  | inl empty ↦
      let h' : some "" ≡ some front = rw empty at h in
      let is_empty : "" ≡ front = cc h' in
      subst (λ x. "" ≡ x <> suffix) is_empty (sym (nil-append suffix ∙ (eq_iff suffix "").0 empty))
  | inr other ↦ let h' : none ≡ some front = rw other at h in absurd (cc h')
]
before_suffix-some suffix (String.◌∷◌ c s) front h = elim (Bool-cases (String.◌∷◌ c s == suffix)) [
  | inl whole ↦
      let h' : some "" ≡ some front = rw whole at h in
      let is_empty : "" ≡ front = cc h' in
      subst (λ x. String.◌∷◌ c s ≡ x <> suffix) is_empty
        ((eq_iff (String.◌∷◌ c s) suffix).0 whole ∙ sym (nil-append suffix))
  | inr other ↦ behind (before_suffix suffix s) (before_suffix-some suffix s) (rw other at h)
]
  where
    behind :
        (o : Option String)
        → ((y : String) → o ≡ some y → s ≡ y <> suffix)
        → put_before c o ≡ some front
        → String.◌∷◌ c s ≡ front <> suffix
    behind none parts h' = absurd (cc h')
    behind (some y) parts h' =
        let is_front : String.◌∷◌ c y ≡ front = cc h' in
        subst (λ x. String.◌∷◌ c s ≡ x <> suffix) is_front
          (ap (String.◌∷◌ c) (parts y refl) ∙ sym (cons-append c y suffix))

suffix_of_itself : (suffix : String) → before_suffix suffix suffix ≡ none → ⊥
unfolding before_suffix
suffix_of_itself String.[] h = cc h
suffix_of_itself (String.◌∷◌ c s) h = cc (rw (same_text (String.◌∷◌ c s)) at h)

before_suffix_found : (suffix front : String) → before_suffix suffix (front <> suffix) ≡ none → ⊥
unfolding before_suffix
before_suffix_found suffix String.[] h =
    suffix_of_itself suffix (ap (before_suffix suffix) (sym (nil-append suffix)) ∙ h)
before_suffix_found suffix (String.◌∷◌ c y) h =
    let split : before_suffix suffix (String.◌∷◌ c (y <> suffix)) ≡ none =
      ap (before_suffix suffix) (sym (cons-append c y suffix)) ∙ h in
    elim (Bool-cases (String.◌∷◌ c (y <> suffix) == suffix)) [
      | inl whole ↦ cc (rw whole at split)
      | inr other ↦
          behind (before_suffix suffix (y <> suffix)) (before_suffix_found suffix y)
            (rw other at split)
    ]
  where
    behind : (o : Option String) → (o ≡ none → ⊥) → put_before c o ≡ none → ⊥
    behind none finds h' = finds refl
    behind (some x) finds h' = cc h'

-- Where nothing is found, the text does not end in the suffix.
pub before_suffix-none :
    (suffix s front : String) → before_suffix suffix s ≡ none → s ≢ front <> suffix
before_suffix-none suffix s front h e =
    before_suffix_found suffix front (ap (before_suffix suffix) (sym e) ∙ h)

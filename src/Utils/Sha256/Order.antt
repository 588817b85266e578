-- ===== src/Utils/Sha256/Order.antt =====
-- Sha256 of pkg/utils/sha256.go on maps, whose keys Go gives in any order.
use Prim.Native.Char.{Char, code}
use mathlib.Core.Bool.{false≢true}
use mathlib.Core.List.{Permᴰ}
use text.Mathlib.TextEquality.{Char-path}
use huaweicloud_csi_driver.Prelude.{
  ◌≡◌, refl, sym, ap, ◌∙◌, inl, inr, String, ◌<>◌, true, false, Bool-cases, List, [], ◌∷◌, eqb,
  arith, if◌then◌else◌,
}
use huaweicloud_csi_driver.Prelude.Dict.{Dict, get}
use huaweicloud_csi_driver.Utils.Decimal.{codes}
use huaweicloud_csi_driver.Utils.Sha256.{
  Bytes, text_leb, insert_key, sort_strings, keys_of, elements_of, join_and, sha256,
}

codes_same : (c d : Char) → eqb (code c) (code d) ≡ true → code c ≡ code d
codes_same c d h = ground arith

text_leb_antisym : (s t : String) → text_leb s t ≡ true → text_leb t s ≡ true → s ≡ t
unfolding text_leb
text_leb_antisym String.[] String.[] h h' = refl
text_leb_antisym String.[] (String.◌∷◌ d t) h h' = absurd (cc h')
text_leb_antisym (String.◌∷◌ c s) String.[] h h' = absurd (cc h)
text_leb_antisym (String.◌∷◌ c s) (String.◌∷◌ d t) h h' =
    elim (Bool-cases (eqb (code c) (code d))) [
      | inl same ↦
          let numbers = codes_same c d same in
          let back : eqb (code d) (code c) ≡ true = ground (arith, numbers) in
          let below : text_leb s t ≡ true = rw same at h in
          let above : text_leb t s ≡ true = rw back at h' in
          let chars = Char-path c d numbers in
          let texts = text_leb_antisym s t below above in
          ap (λ k. String.◌∷◌ k s) chars ∙ ap (String.◌∷◌ d) texts
      | inr other ↦
          let back : eqb (code d) (code c) ≡ false = ground (arith, other) in
          absurd (ground (arith, rw other at h, rw back at h'))
    ]

text_leb_total : (s t : String) → text_leb s t ≡ false → text_leb t s ≡ true
unfolding text_leb
text_leb_total String.[] t h = absurd (cc h)
text_leb_total (String.◌∷◌ c s) String.[] h = refl
text_leb_total (String.◌∷◌ c s) (String.◌∷◌ d t) h =
    let hypothesis = text_leb_total s t in ground (arith, hypothesis)

text_leb_trans : (s t u : String) → text_leb s t ≡ true → text_leb t u ≡ true → text_leb s u ≡ true
unfolding text_leb
text_leb_trans String.[] t u h h' = refl
text_leb_trans (String.◌∷◌ c s) String.[] u h h' = absurd (cc h)
text_leb_trans (String.◌∷◌ c s) (String.◌∷◌ d t) String.[] h h' = absurd (cc h')
text_leb_trans (String.◌∷◌ c s) (String.◌∷◌ d t) (String.◌∷◌ e u) h h' =
    let hypothesis = text_leb_trans s t u in ground (arith, hypothesis)

leb_decided : (s t : String) → (text_leb s t ≡ true → ⊥) → text_leb s t ≡ false
leb_decided s t h = elim (Bool-cases (text_leb s t)) [
  | inl yes_leb ↦ absurd (h yes_leb)
  | inr no_leb ↦ no_leb
]

-- Two keys that stand in front of the others, in either order.
in_front :
    (a b : String) (keys : List String)
    → (if text_leb a b then a ∷ b ∷ keys else b ∷ a ∷ keys)
      ≡ (if text_leb b a then b ∷ a ∷ keys else a ∷ b ∷ keys)
in_front a b keys = elim (Bool-cases (text_leb a b)) [
  | inl below ↦ elim (Bool-cases (text_leb b a)) [
    | inl above ↦
        let same : a ≡ b = text_leb_antisym a b below above in rw (below, above, same) refl
    | inr other ↦ rw (below, other) refl
  ]
  | inr other ↦ rw (other, text_leb_total a b other) refl
]

pub insert_key_comm :
    (a b : String) (keys : List String)
    → insert_key a (insert_key b keys) ≡ insert_key b (insert_key a keys)
unfolding insert_key
insert_key_comm a b [] = in_front a b []
insert_key_comm a b (k ∷ keys) = elim (Bool-cases (text_leb a k)) [
  | inl a_first ↦ elim (Bool-cases (text_leb b k)) [
    | inl b_first ↦ rw (b_first, a_first, insert_key, b_first) (in_front a b (k ∷ keys))
    | inr b_later ↦
        let apart : text_leb b a ≡ false =
          leb_decided b a (λ h. false≢true (sym b_later ∙ text_leb_trans b a k h a_first)) in
        rw (b_later, a_first, insert_key, apart, b_later) refl
  ]
  | inr a_later ↦ elim (Bool-cases (text_leb b k)) [
    | inl b_first ↦
        let apart : text_leb a b ≡ false =
          leb_decided a b (λ h. false≢true (sym a_later ∙ text_leb_trans a b k h b_first)) in
        rw (b_first, a_later, insert_key, apart, b_first) refl
    | inr b_later ↦
        rw (b_later, a_later, insert_key, b_later) (ap (◌∷◌ k) (insert_key_comm a b keys))
  ]
]

pub sort_strings-perm :
    {keys keys' : List String} → Permᴰ keys keys' → sort_strings keys ≡ sort_strings keys'
unfolding sort_strings
sort_strings-perm Permᴰ.nil = refl
sort_strings-perm (Permᴰ.cons {a} {l₁ = l₁} {l₂ = l₂} e p) = rw (e, sort_strings-perm p) refl
sort_strings-perm (Permᴰ.swap {a} {b} {l = l} e e') =
    rw (sym e, sym e') (insert_key_comm a b (sort_strings l))
sort_strings-perm (Permᴰ.trans p q) = sort_strings-perm p ∙ sort_strings-perm q

elements_of-same :
    (values values' : Dict String) (keys : List String)
    → ((key : String) → get values key ≡ get values' key)
    → elements_of values keys ≡ elements_of values' keys
elements_of-same values values' [] same = refl
elements_of-same values values' (key ∷ keys) same =
    ap (λ v. (key <> ("=" <> v)) ∷ elements_of values keys) (same key)
    ∙ ap (◌∷◌ (key <> ("=" <> get values' key))) (elements_of-same values values' keys same)

-- Sha256 depends on the keys and values of a map alone: maps with the same keys, in any order, and the same
-- value for each key have one digest, whatever the hash.
pub sha256-perm :
    (hash : Bytes → Bytes) (values values' : Dict String)
    → Permᴰ (keys_of values) (keys_of values')
    → ((key : String) → get values key ≡ get values' key)
    → sha256 hash values ≡ sha256 hash values'
unfolding sha256
sha256-perm hash values values' p same =
    ap (λ elements. hash (codes (join_and elements)))
      (elements_of-same values values' (sort_strings (keys_of values)) same
        ∙ ap (elements_of values') (sort_strings-perm p))

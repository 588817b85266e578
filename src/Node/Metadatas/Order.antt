-- ===== src/Node/Metadatas/Order.antt =====
-- What CheckMetadataSearchOrder says of Get (pkg/utils/metadatas/metadata.go).
use Prim.Native.Char.{code}
use huaweicloud_csi_driver.Prelude.{
  eqb, ◌≡◌, refl, ap, ◌⊎◌, inl, inr, ◌==◌, String, true, Bool-cases, List, [], ◌∷◌, All, length,
  ltb,
}
use huaweicloud_csi_driver.Status.{Error, Result, ok, err, plain}
use huaweicloud_csi_driver.Effect.{pure}
use huaweicloud_csi_driver.Effect.Returns.{attempt_cases}
use huaweicloud_csi_driver.Utils.Text.{split_commas, trim_space}
use huaweicloud_csi_driver.Node.Host.{Host, Metadata}
use huaweicloud_csi_driver.Node.Metadatas.{
  is_search_option, check_elements, check_metadata_search_order, get_from_config_drive,
  get_from_metadata_service, get_from, get_in_order,
}

abbrev AreOptions : List String → Type 0
AreOptions elements = All (λ (id : String). is_search_option (trim_space id) ≡ true) elements

check_elements-AreOptions :
    (elements : List String) → check_elements elements ≡ ok tt → AreOptions elements
unfolding check_elements
check_elements-AreOptions [] h = tt
check_elements-AreOptions (id ∷ rest) h = elim (Bool-cases (is_search_option (trim_space id))) [
  | inl valid ↦ (valid, check_elements-AreOptions rest (rw valid at h))
  | inr other ↦ absurd (cc (rw other at h))
]

check_order-AreOptions :
    (order : String) → check_metadata_search_order order ≡ ok tt → AreOptions (split_commas order)
unfolding check_metadata_search_order
check_order-AreOptions order h = elim (Bool-cases (order == "")) [
  | inl empty ↦ absurd (cc (rw empty at h))
  | inr given ↦ elim (Bool-cases (ltb 2 (length (split_commas order)))) [
    | inl long ↦ absurd (cc (rw (given, long) at h))
    | inr short ↦ check_elements-AreOptions (split_commas order) (rw (given, short) at h)
  ]
]

split_commas-cons :
    (order : String) → (id : String) × (rest : List String) × (split_commas order ≡ id ∷ rest)
unfolding split_commas
split_commas-cons String.[] = ("", [], refl)
split_commas-cons (String.◌∷◌ c s) = elim (Bool-cases (eqb (code c) b',')) [
  | inl comma ↦ ("", split_commas s, rw comma refl)
  | inr other ↦
      let (id, rest, parts) = split_commas-cons s in (String.◌∷◌ c id, rest, rw (other, parts) refl)
]

module _ {S : Type 0} (h : Host S) where
  -- The error is one that a source returned, in a call that led to the state `s'`.
  abbrev pub FromSource : Error → S → Type 0
  FromSource e s' =
      (s : S) × ((get_from_config_drive h s ≡ (err e, s'))
        ⊎ (get_from_metadata_service h s ≡ (err e, s')))

  get_from-FromSource :
      (id : String) (e : Error) (s s' : S)
      → is_search_option id ≡ true
      → get_from h id s ≡ (err e, s')
      → FromSource e s'
  unfolding get_from
  get_from-FromSource id e s s' valid failed = elim (Bool-cases (id == "configDrive")) [
    | inl drive ↦ (s, inl (rw drive at failed))
    | inr other ↦ elim (Bool-cases (id == "metadataService")) [
      | inl service ↦ (s, inr (rw (other, service) at failed))
      | inr neither ↦ absurd (cc (rw (other, neither) at valid))
    ]
  ]

  first_source :
      (last : Error) (id : String) (rest : List String) (e : Error) (s s' : S)
      → is_search_option (trim_space id) ≡ true
      → ((x : Error) (t : S)
          → FromSource x t
          → get_in_order h x rest t ≡ (err e, s')
          → FromSource e s')
      → get_in_order h last (id ∷ rest) s ≡ (err e, s')
      → FromSource e s'
  unfolding get_in_order
  first_source last id rest e s s' valid others failed =
      elim (attempt_cases (get_from h (trim_space id)) (λ x. get_in_order h x rest) pure s
        (err e, s') failed) [
          | inl (metadata, t, _, given) ↦ absurd (cc (ap (λ (q : Result Metadata × S). q.0) given))
          | inr (x, t, refused, later) ↦
              others x t (get_from-FromSource (trim_space id) x s t valid refused) later
        ]

  out_of_sources :
      (last e : Error) (s s' : S) → get_in_order h last [] s ≡ (err e, s') → (last ≡ e) × (s ≡ s')
  unfolding get_in_order
  out_of_sources last e s s' failed = (
    cc (ap (λ (q : Result Metadata × S). q.0) failed),
    ap (λ (q : Result Metadata × S). q.1) failed,
  )

  get_in_order-FromSource :
      (elements : List String) (last : Error) (e : Error) (s s' : S)
      → AreOptions elements
      → FromSource last s
      → get_in_order h last elements s ≡ (err e, s')
      → FromSource e s'
  get_in_order-FromSource [] last e s s' valid from failed =
      let (same, kept) = out_of_sources last e s s' failed in rw same at (rw kept at from)
  get_in_order-FromSource (id ∷ rest) last e s s' valid from failed =
      first_source last id rest e s s' valid.0
        (λ x t. get_in_order-FromSource rest x e t s' valid.1) failed

  -- Where CheckMetadataSearchOrder accepts a search order, Get never fails because of the order: an error of
  -- it is one that the config drive or the metadata service returned, in the last of its attempts.
  pub get_in_order-checked :
      (order : String) (e : Error) (s s' : S)
      → check_metadata_search_order order ≡ ok tt
      → get_in_order h (plain "") (split_commas order) s ≡ (err e, s')
      → FromSource e s'
  get_in_order-checked order e s s' accepted failed =
      let (id, rest, parts) = split_commas-cons order in
      let valid : AreOptions (id ∷ rest) = rw parts at (check_order-AreOptions order accepted) in
      let failed' : get_in_order h (plain "") (id ∷ rest) s ≡ (err e, s') = rw parts at failed in
      first_source (plain "") id rest e s s' valid.0
        (λ x t. get_in_order-FromSource rest x e t s' valid.1) failed'

-- ===== src/SfsTurbo/Controller/Search.antt =====
-- What the search for a share of a name returns: checkVolumeExists of
-- pkg/sfsturbo/controllerserver.go.
use mathlib.Core.List.{Memᴰ}
use mathlib.Core.Path.{subst}
use huaweicloud_csi_driver.Prelude.{
  ◌≡◌, ◌≢◌, refl, ap, ◌∙◌, eq_iff, arith, ◌==◌, String, Bool, true, false, ◌&&◌, Option, none, some,
  List, [], ◌∷◌, All, ℤ, eqb_ℤ→eq, inl, inr,
}
use huaweicloud_csi_driver.Status.{Result, ok, refuse, invalid_argument}
use huaweicloud_csi_driver.Effect.{pure, fail, lift}
use huaweicloud_csi_driver.Effect.Returns.{
  Returns-bind, Returns-map_error, Returns-pure, Returns-if,
}
use huaweicloud_csi_driver.SfsTurbo.Sdk.{TurboCloud, Turbo, CreateOpts}
use huaweicloud_csi_driver.SfsTurbo.Services.{size_of}
use huaweicloud_csi_driver.SfsTurbo.Controller.{opts_of, same_opts}
use huaweicloud_csi_driver.SfsTurbo.Controller.Calls.{compare_share, find_share}

both : (a b : Bool) → (a && b) ≡ true → (a ≡ true) × (b ≡ true)
both a b h = (ground arith, ground arith)

not_equal : (a b : String) → (a == b) ≡ false → a ≢ b
not_equal a b h e = let same = (eq_iff a b).1 e in cc (h, same)

-- The test of two options is their equality.
pub same_opts→eq : (a b : CreateOpts) → same_opts a b ≡ true → a ≡ b
unfolding same_opts
same_opts→eq a b h =
    let (name, h₁) = both _ _ h in
    let (proto, h₂) = both _ _ h₁ in
    let (kind, h₃) = both _ _ h₂ in
    let (size, h₄) = both _ _ h₃ in
    let (zone, h₅) = both _ _ h₄ in
    let (vpc, h₆) = both _ _ h₅ in
    let (subnet, h₇) = both _ _ h₆ in
    let (group, description) = both _ _ h₇ in
    let p₁ = (eq_iff a.name b.name).0 name in
    let p₂ = (eq_iff a.share_proto b.share_proto).0 proto in
    let p₃ = (eq_iff a.share_type b.share_type).0 kind in
    let p₄ = eqb_ℤ→eq a.size b.size size in
    let p₅ = (eq_iff a.availability_zone b.availability_zone).0 zone in
    let p₆ = (eq_iff a.vpc_id b.vpc_id).0 vpc in
    let p₇ = (eq_iff a.subnet_id b.subnet_id).0 subnet in
    let p₈ = (eq_iff a.security_group_id b.security_group_id).0 group in
    let p₉ = (eq_iff a.description b.description).0 description in cc

module _ (C : TurboCloud) where
  -- The share has the options, its size read as a number and cut to an integer.
  abbrev pub HasOpts : CreateOpts → Turbo → Type 0
  HasOpts opts v =
      (number : C.float64.Float) × (C.float64.parse_float v.size ≡ ok number)
      × (opts_of v (C.float64.to_int number) ≡ opts)

  -- What is known of the share that a search gave, or of all the shares where it gave none.
  abbrev pub FoundIn : List Turbo → CreateOpts → Option Turbo → Type 0
  FoundIn turbos opts none = All (λ v. v.name ≢ opts.name) turbos
  FoundIn turbos opts (some v) = Memᴰ v turbos × HasOpts opts v

  pub size_of-Returns :
      (text : String) (s s' : C.State) (size : ℤ)
      → size_of C text s ≡ (ok size, s')
      → (number : C.float64.Float) × (C.float64.parse_float text ≡ ok number)
        × (C.float64.to_int number ≡ size)
        × (s ≡ s')
  unfolding size_of
  size_of-Returns text s s' size h =
      let (number, s₁, read, given) = Returns-bind _ _ s size s' h in
      let parsed = Returns-map_error _ (lift (C.float64.parse_float text)) s number s₁ read in
      (
        number,
        ap (λ (q : Result C.float64.Float × C.State). q.0) parsed,
        (Returns-pure (C.float64.to_int number) size s₁ s' given).0,
        ap (λ (q : Result C.float64.Float × C.State). q.1) parsed
            ∙ (Returns-pure (C.float64.to_int number) size s₁ s' given).1,
      )

  compare_share-HasOpts :
      (v : Turbo) (opts : CreateOpts) (s s' : C.State) (found : Option Turbo)
      → compare_share C v opts s ≡ (ok found, s')
      → (some v ≡ found) × HasOpts opts v
  unfolding compare_share
  compare_share-HasOpts v opts s s' found h =
      let (size, s₁, read, tested) = Returns-bind (size_of C v.size) _ s found s' h in
      let (number, parsed, cut, _) = size_of-Returns v.size s s₁ size read in
      elim (Returns-if (same_opts (opts_of v size) opts) (pure (some v))
        (fail (refuse invalid_argument)) s₁ _ tested) [
          | inl (same, given) ↦ (
            (Returns-pure (some v) found s₁ s' given).0,
            (number, parsed, ap (opts_of v) cut ∙ same_opts→eq _ _ same),
          )
          | inr (other, failed) ↦
              absurd (cc (ap (λ (q : Result (Option Turbo) × C.State). q.0) failed))
        ]

  FoundIn-cons :
      (v : Turbo) (rest : List Turbo) (opts : CreateOpts) (found : Option Turbo)
      → v.name ≢ opts.name
      → FoundIn rest opts found
      → FoundIn (v ∷ rest) opts found
  FoundIn-cons v rest opts none other all = (other, all)
  FoundIn-cons v rest opts (some w) other (m, has) = (Memᴰ.tail m, has)

  -- A search that returns a share returns one of the list that has all the options, and one that
  -- returns none saw no share of that name. (A share with the name and other options is an error.)
  pub find_share-FoundIn :
      (turbos : List Turbo) (opts : CreateOpts) (s s' : C.State) (found : Option Turbo)
      → find_share C turbos opts s ≡ (ok found, s')
      → FoundIn turbos opts found
  unfolding find_share
  find_share-FoundIn [] opts s s' found h =
      subst (FoundIn [] opts) (Returns-pure none found s s' h).0 tt
  find_share-FoundIn (v ∷ rest) opts s s' found h =
      elim (Returns-if (v.name == opts.name) (compare_share C v opts) (find_share C rest opts) s _
        h) [
          | inl (same, compared) ↦
              let (given, has) = compare_share-HasOpts v opts s s' found compared in
              subst (FoundIn (v ∷ rest) opts) given (Memᴰ.head refl, has)
          | inr (other, searched) ↦
              FoundIn-cons v rest opts found (not_equal v.name opts.name other)
                (find_share-FoundIn rest opts s s' found searched)
        ]

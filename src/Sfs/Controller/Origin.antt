-- ===== src/Sfs/Controller/Origin.antt =====
-- Where the share comes from that CreateVolume of pkg/sfs/controllerserver.go answers.
use mathlib.Core.Bool.{false≢true}
use mathlib.Core.Path.{subst}
use huaweicloud_csi_driver.Prelude.{
  ◌≡◌, ◌≢◌, refl, sym, ap, ◌∙◌, ◌⊎◌, inl, inr, ◌==◌, eq_iff, Bool, true, false, ◌&&◌, String,
  Option, none, some, List, [], ◌∷◌, ℤ, pos, negsuc, arith, Bool-cases, eqb_ℤ, eqb_ℤ→eq,
}
use huaweicloud_csi_driver.Status.{Result, ok, wrapping, refuse, internal, invalid_argument}
use huaweicloud_csi_driver.Effect.{pure, fail, lift}
use huaweicloud_csi_driver.Effect.Returns.{
  Returns-bind, Returns-map_error, Returns-pure, Returns-if, Returns-guard,
}
use huaweicloud_csi_driver.Config.{ServiceClient}
use huaweicloud_csi_driver.Csi
use huaweicloud_csi_driver.Csi.{CapacityRange, CreateVolumeRequest}
use huaweicloud_csi_driver.Utils.{round_up_size, gb_byte_size, gb_to_bytes}
use huaweicloud_csi_driver.Sfs.Sdk.{SfsCloud, IsWaiter, Share}
use huaweicloud_csi_driver.Sfs.Driver.{SfsDriver, sfs_client}
use huaweicloud_csi_driver.Sfs.Shares.{
  with_description, access_to_vpc, has_status, wait_for_share_status, create_sfs_share,
  grant_access_to,
}
use huaweicloud_csi_driver.Sfs.Controller.{
  sfs_create_validation, requested_gib, compare_named, first_named, check_volume_exist,
  share_or_new, granted_volume, create_sfs,
}

-- The first share of a list that has the name.
abbrev pub FirstNamed : String → List Share → Share → Type 0
FirstNamed name [] share = ⊥
FirstNamed name (v ∷ rest) share =
    ((v.name ≡ name) × (v ≡ share)) ⊎ ((v.name ≢ name) × FirstNamed name rest share)

-- No share of a list has the name.
abbrev pub NoneNamed : String → List Share → Type 0
NoneNamed name [] = Unit
NoneNamed name (v ∷ rest) = (v.name ≢ name) × NoneNamed name rest

-- The size in GiB that a range asks for: ten where no bytes are required, and else they are rounded up.
abbrev pub SizeAsked : CapacityRange → ℤ → Type 0
SizeAsked range size =
    ((range.required_bytes ≡ pos 0) × (size ≡ pos 10))
    ⊎ ((range.required_bytes ≢ pos 0) × (size ≡ round_up_size range.required_bytes gb_byte_size))

eqb_ℤ-refl : (z : ℤ) → eqb_ℤ z z ≡ true
eqb_ℤ-refl (pos n) = ground arith
eqb_ℤ-refl (negsuc n) = ground arith

requested_gib-Asked : (range : CapacityRange) → SizeAsked range (requested_gib range)
unfolding requested_gib round_up_size
requested_gib-Asked range = elim (Bool-cases (eqb_ℤ range.required_bytes (pos 0))) [
  | inl unset ↦ inl (eqb_ℤ→eq range.required_bytes (pos 0) unset, rw unset refl)
  | inr set ↦
      inr (
        λ e. false≢true (sym set ∙ (ap (λ z. eqb_ℤ z (pos 0)) e ∙ eqb_ℤ-refl (pos 0))),
        rw set refl,
      )
]

both : (a b : Bool) → (a && b) ≡ true → (a ≡ true) × (b ≡ true)
both true b h = (refl, h)
both false b h = absurd (cc h)

differ : (a b : String) → (a == b) ≡ false → a ≢ b
differ a b other same = false≢true (sym other ∙ (eq_iff a b).1 same)

module _ (name : String) (size : ℤ) (proto : String) where
  -- What the search made of a list: a share that fits, or none.
  abbrev Searched : List Share → Option Share → Type 0
  Searched list none = NoneNamed name list
  Searched list (some share) =
      FirstNamed name list share × (share.size ≡ size) × (share.share_proto ≡ proto)

  past :
      (v : Share) (rest : List Share) (found : Option Share)
      → v.name ≢ name
      → Searched rest found
      → Searched (v ∷ rest) found
  past v rest none other later = (other, later)
  past v rest (some share) other (first, sized, same_proto) =
      (inr (other, first), sized, same_proto)

  module _ {S : Type 0} where
    compare_named-Searched :
        (v : Share) (rest : List Share) (found : Option Share) (s s' : S)
        → v.name ≡ name
        → compare_named size proto v s ≡ (ok found, s')
        → Searched (v ∷ rest) found × (s ≡ s')
    unfolding compare_named
    compare_named-Searched v rest found s s' named h =
        elim (Returns-if (v.share_proto == proto && eqb_ℤ v.size size) (pure (some v))
          (fail (refuse invalid_argument)) s _ h) [
            | inl (same, given) ↦
                let (is_found, kept) = Returns-pure (some v) found s s' given in
                let (same_proto, same_size) =
                  both (v.share_proto == proto) (eqb_ℤ v.size size) same in
                let fits : Searched (v ∷ rest) (some v) = (
                  inl (named, refl),
                  eqb_ℤ→eq v.size size same_size,
                  (eq_iff v.share_proto proto).0 same_proto,
                ) in
                (subst (Searched (v ∷ rest)) is_found fits, kept)
            | inr (other, refused) ↦
                absurd (cc (ap (λ (q : Result (Option Share) × S). q.0) refused))
          ]

    first_named-Searched :
        (list : List Share) (found : Option Share) (s s' : S)
        → first_named name size proto list s ≡ (ok found, s')
        → Searched list found × (s ≡ s')
    unfolding first_named
    first_named-Searched [] found s s' h =
        let (is_found, kept) = Returns-pure none found s s' h in
        let nothing : Searched [] none = tt in (subst (Searched []) is_found nothing, kept)
    first_named-Searched (v ∷ rest) found s s' h =
        elim (Returns-if (v.name == name) (compare_named size proto v)
          (first_named name size proto rest) s _ h) [
            | inl (same, compared) ↦
                compare_named-Searched v rest found s s' ((eq_iff v.name name).0 same) compared
            | inr (other, later) ↦
                let (searched, kept) = first_named-Searched rest found s s' later in
                (past v rest found (differ v.name name other) searched, kept)
          ]

module _ (C : SfsCloud) (d : SfsDriver) where
  -- A request for a share of the name, the size and the driver's protocol returned it, and the query that
  -- led to the end state reported it as available.
  abbrev pub CreatedAvailable : ServiceClient → String → ℤ → Share → C.State → C.State → Type 0
  CreatedAvailable client name size share s s' =
      (s₁ : C.State) × (s₂ : C.State) × (seen : Share) × (C.shares_create client
          (record {
            share_proto = d.share_proto;
            size = size;
            name = name;
            description = "provisioned-by=sfs.csi.huaweicloud.org";
          })
          s
        ≡ (ok share, s₁))
      × (C.shares_get client share.id s₂ ≡ (ok seen, s'))
      × (seen.status ≡ "available")

  has_status-seen :
      (client : ServiceClient) (id desired : String) (s s' : C.State)
      → has_status C client id desired s ≡ (ok true, s')
      → (seen : Share) × (C.shares_get client id s ≡ (ok seen, s')) × (seen.status ≡ desired)
  unfolding has_status
  has_status-seen client id desired s s' h =
      let (seen, s₁, got, given) = Returns-bind (C.shares_get client id) _ s true s' h in
      let (is_desired, kept) = Returns-pure (seen.status == desired) true s₁ s' given in
      (seen, got ∙ ap (λ u. (ok seen, u)) kept, (eq_iff seen.status desired).0 is_desired)

  create_sfs_share-Created :
      IsWaiter C.waiter
      → (client : ServiceClient) (name : String) (size : ℤ) (share : Share) (s s' : C.State)
      → create_sfs_share C client
          (record { share_proto = d.share_proto; size = size; name = name; description = "" })
          s
        ≡ (ok share, s')
      → CreatedAvailable client name size share s s'
  unfolding create_sfs_share wait_for_share_status with_description
  create_sfs_share-Created lawful client name size share s s' h =
      let (made, s₁, sent, h₁) = Returns-bind _ _ s share s' h in
      let (done, s₂, waited, h₂) = Returns-bind _ _ s₁ share s' h₁ in
      let (is_share, kept) = Returns-pure made share s₂ s' h₂ in
      let polled =
        Returns-map_error (wrapping internal) (wait_for_share_status C client made.id "available")
          s₁ done s₂ waited in
      let (s₃, satisfied) =
        lawful.satisfied C.State 3 (has_status C client made.id "available") s₁ s₂ polled in
      let (seen, got, available) = has_status-seen client made.id "available" s₃ s₂ satisfied in
      let created =
        Returns-map_error (wrapping internal) (C.shares_create client _) s made s₁ sent in
      (
        s₁,
        s₃,
        seen,
        created ∙ ap (λ v. (ok v, s₁)) is_share,
        sym (ap (λ (v : Share). C.shares_get client v.id s₃) is_share)
            ∙ (got ∙ ap (λ u. (ok seen, u)) kept),
        available,
      )

  -- What came of the list that the cloud reported for the name: its first share of the name, which has
  -- the size and the protocol, with no further request; or, where it has no share of the name, a new one.
  abbrev pub FoundOrCreated :
      ServiceClient → String → ℤ → Share → List Share → C.State → C.State → Type 0
  FoundOrCreated client name size share list s s' =
      (FirstNamed name list share
        × (share.size ≡ size)
        × (share.share_proto ≡ d.share_proto)
        × (s ≡ s'))
      ⊎ (NoneNamed name list × CreatedAvailable client name size share s s')

  -- What CreateVolume knows of its answer.
  abbrev pub Answers : CreateVolumeRequest → CapacityRange → Csi.Volume → C.State → Type 0
  Answers req range answer s' =
      (client : ServiceClient) × (share : Share) × (size : ℤ) × (list : List Share) × (s₁ : C.State)
      × (s₂ : C.State) × (s₃ : C.State) × (sfs_client d.cloud ≡ ok client)
      × (share.id ≡ answer.volume_id)
      × SizeAsked range size
      × (answer.capacity_bytes ≡ gb_to_bytes size)
      × (C.shares_list client req.name s₁ ≡ (ok list, s₂))
      × FoundOrCreated client req.name size share list s₂ s₃
      × (C.grant_access client share.id
            (record { access_level = "rw"; access_type = "cert"; access_to = d.cloud.vpc_id }) s₃
          ≡ (ok tt, s'))

  share_or_new-Origin :
      IsWaiter C.waiter
      → (client : ServiceClient) (name : String) (size : ℤ) (found : Option Share) (share : Share)
        (s₁ s₂ s' : C.State)
      → check_volume_exist C client name size d.share_proto s₁ ≡ (ok found, s₂)
      → share_or_new C client d name size found s₂ ≡ (ok share, s')
      → (list : List Share) × (s₃ : C.State) × (C.shares_list client name s₁ ≡ (ok list, s₃))
        × FoundOrCreated client name size share list s₃ s'
  unfolding check_volume_exist share_or_new
  share_or_new-Origin lawful client name size found share s₁ s₂ s' searched h =
      let (list, s₃, asked, tested) = Returns-bind _ _ s₁ found s₂ searched in
      let listed =
        Returns-map_error (wrapping internal) (C.shares_list client name) s₁ list s₃ asked in
      let (matched, kept) = first_named-Searched name size d.share_proto list found s₃ s₂ tested in
      (list, s₃, listed, origin found list s₃ matched kept h)
    where
      origin :
          (found : Option Share) (list : List Share) (s₃ : C.State)
          → Searched name size d.share_proto list found
          → s₃ ≡ s₂
          → share_or_new C client d name size found s₂ ≡ (ok share, s')
          → FoundOrCreated client name size share list s₃ s'
      origin none list s₃ absent kept h =
          inr (absent, rw kept (create_sfs_share-Created lawful client name size share s₂ s' h))
      origin (some v) list s₃ (first, sized, proto) kept h =
          let (is_share, same) = Returns-pure v share s₂ s' h in
          inl (
            subst (FirstNamed name list) is_share first,
            sym (ap (λ (u : Share). u.size) is_share) ∙ sized,
            sym (ap (λ (u : Share). u.share_proto) is_share) ∙ proto,
            kept ∙ same,
          )

  granted_volume-Granted :
      (client : ServiceClient) (req : CreateVolumeRequest) (size : ℤ) (share : Share)
      (answer : Csi.Volume) (s s' : C.State)
      → granted_volume C client d req size share s ≡ (ok answer, s')
      → (share.id ≡ answer.volume_id)
        × (answer.capacity_bytes ≡ gb_to_bytes size)
        × (C.grant_access client share.id
              (record { access_level = "rw"; access_type = "cert"; access_to = d.cloud.vpc_id })
              s
            ≡ (ok tt, s'))
  unfolding granted_volume grant_access_to gb_to_bytes
  granted_volume-Granted client req size share answer s s' h =
      let (_, s₁, granted, given) = Returns-bind _ _ s answer s' h in
      let (same, kept) = Returns-pure _ answer s₁ s' given in
      let accepted =
        Returns-map_error (wrapping internal)
          (C.grant_access client share.id (access_to_vpc d.cloud.vpc_id)) s tt s₁ granted in
      (
        ap (λ (v : Csi.Volume). v.volume_id) same,
        sym (ap (λ (v : Csi.Volume). v.capacity_bytes) same),
        accepted ∙ ap (λ u. (ok tt, u)) kept,
      )

  sfs_create_validation-range :
      (name : String) (asked : Option CapacityRange) (range : CapacityRange) (s s' : C.State)
      → sfs_create_validation name asked s ≡ (ok range, s')
      → asked ≡ some range
  unfolding sfs_create_validation
  sfs_create_validation-range name none range s s' h =
      let (_, refused) =
        Returns-guard (name == "") (refuse invalid_argument) (fail (refuse invalid_argument)) s
          range s' h in
      absurd (cc (ap (λ (q : Result CapacityRange × C.State). q.0) refused))
  sfs_create_validation-range name (some asked) range s s' h =
      let (_, given) =
        Returns-guard (name == "") (refuse invalid_argument) (pure asked) s range s' h in
      ap some (Returns-pure asked range s s' given).0

  -- Where CreateVolume returns a volume, the request had a capacity range, and the answer is a share of the
  -- size that the range asks for in GiB: the required bytes rounded up, or ten where none are required. The
  -- cloud had listed the shares for the name; the answer is the first share of the list that has the name,
  -- and it has the size and the driver's protocol; or no share of the list has the name, and the answer was
  -- created by a request for the name, the size and the protocol, and then seen available. The last thing
  -- that it did was to grant the driver's VPC access to that share.
  pub create_sfs-Answers :
      IsWaiter C.waiter
      → (req : CreateVolumeRequest) (answer : Csi.Volume) (s s' : C.State)
      → create_sfs C d req s ≡ (ok answer, s')
      → (range : CapacityRange) × (req.capacity_range ≡ some range) × Answers req range answer s'
  unfolding create_sfs
  create_sfs-Answers lawful req answer s s' h =
      let (client, s₁, connected, h₁) = Returns-bind _ _ s answer s' h in
      let (range, s₂, checked, h₂) = Returns-bind _ _ s₁ answer s' h₁ in
      let (found, s₃, searched, h₃) = Returns-bind _ _ s₂ answer s' h₂ in
      let (share, s₄, reached, h₄) = Returns-bind _ _ s₃ answer s' h₃ in
      let size = requested_gib range in
      let (named, sized, granted) = granted_volume-Granted client req size share answer s₄ s' h₄ in
      let (list, s₅, listed, origin) =
        share_or_new-Origin lawful client req.name size found share s₂ s₃ s₄ searched reached in
      let opened =
        Returns-map_error (wrapping internal) (lift (sfs_client d.cloud)) s client s₁ connected in
      (
        range,
        sfs_create_validation-range req.name req.capacity_range range s₁ s₂ checked,
        (
          client,
          share,
          size,
          list,
          s₂,
          s₅,
          s₄,
          ap (λ (q : Result ServiceClient × C.State). q.0) opened,
          named,
          requested_gib-Asked range,
          sized,
          listed,
          origin,
          granted,
        ),
      )

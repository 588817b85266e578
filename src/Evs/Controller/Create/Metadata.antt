-- ===== src/Evs/Controller/Create/Metadata.antt =====
-- What parseMetadata of pkg/evs/controllerserver.go puts into the metadata of a new volume.
use huaweicloud_csi_driver.Prelude.{
  ◌≡◌, refl, ◌∙◌, arith, ◌==◌, String, Bool, true, false, ◌&&◌, not, Option, none, some, List, [],
  ◌∷◌,
}
use huaweicloud_csi_driver.Prelude.Dict.{Dict, lookup, insert, lookup-insert}
use huaweicloud_csi_driver.Evs.Driver.{EvsDriver}
use huaweicloud_csi_driver.Evs.Controller.Create.{copy_tags, tags, parse_metadata}

-- The key is none of the list.
abbrev is_other : String → List String → Bool
is_other key [] = true
is_other key (k ∷ keys) = not (k == key) && is_other key keys

both : (a b : Bool) → (a && b) ≡ true → (a ≡ true) × (b ≡ true)
both a b h = (ground arith, ground arith)

copy_tags-other :
    (keys : List String) (parameters metadata : Dict String) (key : String)
    → is_other key keys ≡ true
    → lookup key (copy_tags keys parameters metadata) ≡ lookup key metadata
unfolding copy_tags
copy_tags-other [] parameters metadata key h = refl
copy_tags-other (k ∷ keys) parameters metadata key h =
    let (differs, others) = both (not (k == key)) (is_other key keys) h in
    copy_tags-other keys parameters _ key others ∙ one (lookup k parameters) differs
  where
    one :
        (found : Option String)
        → not (k == key) ≡ true
        → lookup key (elim found [ none ↦ metadata | some v ↦ insert k v metadata ])
          ≡ lookup key metadata
    one none differs = refl
    one (some v) differs = ground (arith, lookup-insert k key v metadata)

module _ (d : EvsDriver) (parameters : Dict String) where
  -- The metadata of a volume that is made from a snapshot asks for no encryption and no SCSI, whatever
  -- the parameters say.
  pub parse_metadata-snapshot :
      (snapshot_id : String)
      → (snapshot_id == "") ≡ false
      → (lookup "hw:passthrough" (parse_metadata d parameters snapshot_id) ≡ none)
        × (lookup "__system__encrypted" (parse_metadata d parameters snapshot_id) ≡ none)
        × (lookup "__system__cmkid" (parse_metadata d parameters snapshot_id) ≡ none)
  unfolding parse_metadata
  parse_metadata-snapshot snapshot_id h = rw h (
    copy_tags-other tags parameters _ "hw:passthrough" refl,
    copy_tags-other tags parameters _ "__system__encrypted" refl,
    copy_tags-other tags parameters _ "__system__cmkid" refl,
  )

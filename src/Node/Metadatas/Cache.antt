-- ===== src/Node/Metadatas/Cache.antt =====
-- The cache of the instance's metadata (Get of pkg/utils/metadatas/metadata.go).
use huaweicloud_csi_driver.Prelude.{◌≡◌, refl, sym, ap, ◌∙◌, String, Option, none, some}
use huaweicloud_csi_driver.Status.{Result, ok, plain}
use huaweicloud_csi_driver.Effect.{attempt}
use huaweicloud_csi_driver.Effect.Returns.{Returns-bind, Returns-pure}
use huaweicloud_csi_driver.Utils.Text.{split_commas}
use huaweicloud_csi_driver.Node.Host.{Host, Metadata}
use huaweicloud_csi_driver.Node.Metadatas.{
  get_in_order, keep_in_cache, cached_or_read, get_metadata, metadata_service,
}

-- The cache is a variable: it holds what was assigned last.
abbrev pub IsVariable : {S : Type 0} → Host S → Type 0
IsVariable {S} h =
    (metadata : Metadata) (s : S)
    → h.metadata_cache (h.set_metadata_cache metadata s) ≡ some metadata

module _ {S : Type 0} (h : Host S) (variable : IsVariable h) where
  cached_or_read-caches :
      (order : String) (held : Option Metadata) (metadata : Metadata) (s s' : S)
      → h.metadata_cache s ≡ held
      → cached_or_read h order held s ≡ (ok metadata, s')
      → h.metadata_cache s' ≡ some metadata
  unfolding cached_or_read
  cached_or_read-caches order (some found) metadata s s' holds h₁ =
      let (same, kept) = Returns-pure found metadata s s' h₁ in
      ap h.metadata_cache (sym kept) ∙ (holds ∙ ap some same)
  cached_or_read-caches order none metadata s s' holds h₁ =
      let (found, s₁, _, stored) =
        Returns-bind (get_in_order h (plain "") (split_commas order)) (keep_in_cache h) s metadata
          s' h₁ in
      let same : found ≡ metadata = cc (ap (λ (q : Result Metadata × S). q.0) stored) in
      let kept : h.set_metadata_cache found s₁ ≡ s' =
        ap (λ (q : Result Metadata × S). q.1) stored in
      ap h.metadata_cache (sym kept) ∙ (variable found s₁ ∙ ap some same)

  -- Once the metadata of the instance was read, every later reading gives the same, whatever the search
  -- order, and does nothing: the id and the zone of the node are those of one document.
  pub get_metadata-again :
      (order later : String) (metadata : Metadata) (s s' : S)
      → get_metadata h order s ≡ (ok metadata, s')
      → (get_metadata h later s' ≡ (ok metadata, s'))
        × ((metadata_service h later).get_instance_id s' ≡ (ok metadata.uuid, s'))
        × ((metadata_service h later).get_availability_zone s'
            ≡ (ok metadata.availability_zone, s'))
  unfolding get_metadata cached_or_read metadata_service attempt
  get_metadata-again order later metadata s s' read =
      let holds = cached_or_read-caches order (h.metadata_cache s) metadata s s' refl read in
      (
        rw (holds, cached_or_read) refl,
        rw (holds, cached_or_read) refl,
        rw (holds, cached_or_read) refl,
      )

-- ===== src/Evs/Node/Ephemeral.antt =====
-- The ephemeral volumes of pkg/evs/nodeserver.go: what becomes of them, and what a block volume's
-- publication knows.
use huaweicloud_csi_driver.Prelude.{◌≡◌, refl, sym, ap, ◌∙◌, inl, inr, String, false}
use huaweicloud_csi_driver.Status.{Error, Result, ok, err, wrapping, unless_panic, internal}
use huaweicloud_csi_driver.Effect.{attempt}
use huaweicloud_csi_driver.Effect.Keeps.{Keeps, keeps_rules, Keeps-attempt, Keeps-fail, Keeps-pure}
use huaweicloud_csi_driver.Effect.Returns.{
  Returns-bind, Returns-map_error, Returns-pure, attempt_cases,
}
use huaweicloud_csi_driver.Csi.Node.{NodePublishRequest}
use huaweicloud_csi_driver.Evs.Sdk.{Cloud, Volume}
use huaweicloud_csi_driver.Evs.Driver.{EvsDriver}
use huaweicloud_csi_driver.Evs.Services.Volumes.{get_volume}
use huaweicloud_csi_driver.Node.Host.{Host}
use huaweicloud_csi_driver.Node.Mounts.{IMount}
use huaweicloud_csi_driver.Node.Metadatas.{IMetadata}
use huaweicloud_csi_driver.Evs.Node.{node_device_path}
use huaweicloud_csi_driver.Evs.Node.Publish.{
  bind_options, node_publish_block, remove_target, node_unpublish_volume, unmount_found,
  unpublish_checked,
}

module _ (C : Cloud) (h : Host C.State) (m : IMount C.State) (md : IMetadata C.State)
    (d : EvsDriver) where
  module _ {P : C.State → Type 0} (volume_id target_path : String)
      (asks : Keeps P (get_volume C d.cloud_credentials volume_id))
      (unmounts : Keeps P (m.unmount_path target_path))
      (found : (s s' : C.State) (e : Error)
        → get_volume C d.cloud_credentials volume_id s ≡ (err e, s')
        → ⊥) where
    unmount_found-Keeps : (vol : Volume) → Keeps P (unmount_found C h m md d target_path vol false)
    unfolding unmount_found
    unmount_found-Keeps vol =
        Keeps-attempt _ _ _ (Keeps-attempt _ _ _ unmounts (λ e. Keeps-fail _) Keeps-pure) Keeps-fail
          (λ _. Keeps-pure tt)

    unpublish_checked-Keeps : Keeps P (unpublish_checked C h m md d volume_id target_path)
    unfolding unpublish_checked attempt
    unpublish_checked-Keeps = record {
      at = λ s p.
          go s (get_volume C d.cloud_credentials volume_id s).0
            (get_volume C d.cloud_credentials volume_id s).1 refl (asks.at s p);
    }
      where
        go :
            (s : C.State) (r : Result Volume) (s' : C.State)
            → get_volume C d.cloud_credentials volume_id s ≡ (r, s')
            → P s'
            → P (unpublish_checked C h m md d volume_id target_path s).1
        go s (ok vol) s' e p = rw e ((unmount_found-Keeps vol).at s' p)
        go s (err x) s' e p = absurd (found s s' x e)

    -- As long as the query of the volume's id finds a volume, NodeUnpublishVolume changes nothing but by the
    -- unmount: it takes an ephemeral volume for another one, and neither detaches nor deletes it.
    pub node_unpublish_volume-Keeps :
        Keeps P (node_unpublish_volume C h m md d volume_id target_path)
    unfolding node_unpublish_volume
    node_unpublish_volume-Keeps = search (keeps_rules, unpublish_checked-Keeps)

  -- The device of the volume, found in a search, was mounted at the target by the last call.
  abbrev pub BlockMounted : NodePublishRequest → C.State → Type 0
  BlockMounted req s' =
      (source : String) × (s₀ : C.State) × (s₁ : C.State) × (s₂ : C.State) × (node_device_path C h m
          d req.volume_id s₀
        ≡ (ok source, s₁))
      × (h.mount source req.target_path "" (bind_options req.readonly) s₂ ≡ (ok tt, s'))

  -- A target that could not be mounted is removed, and the error is that of the mount.
  remove_target_lem :
      (target : String) (e : Error) (s : C.State)
      → remove_target C h m md d target e s ≡ (err (wrapping internal e), (h.remove target s).1)
  unfolding remove_target attempt
  remove_target_lem target e s = go (h.remove target s).0 (h.remove target s).1 refl
    where
      go :
          (r : Result (Unit {0})) (t : C.State)
          → h.remove target s ≡ (r, t)
          → remove_target C h m md d target e s ≡ (err (wrapping internal e), (h.remove target s).1)
      go (ok a) t p = rw p refl
      go (err x) t p = rw p refl

  -- Where the publication of a block volume returns without an error, the last thing that it did was to mount
  -- the device that a search for the volume had found at the target: a mount that failed is an error.
  pub node_publish_block-BlockMounted :
      (req : NodePublishRequest) (s s' : C.State)
      → node_publish_block C h m md d req s ≡ (ok tt, s')
      → BlockMounted req s'
  unfolding node_publish_block
  node_publish_block-BlockMounted req s s' done =
      let (source, s₁, searched, h₁) = Returns-bind _ _ s tt s' done in
      let (_, s₂, _, h₂) = Returns-bind _ _ s₁ tt s' h₁ in
      let (_, s₃, _, h₃) = Returns-bind _ _ s₂ tt s' h₂ in
      elim (attempt_cases (h.mount source req.target_path "" (bind_options req.readonly)) _ _ s₃
        (ok tt, s') h₃) [
          | inl (_, s₄, mounted, given) ↦ (
            source,
            s,
            s₁,
            s₃,
            Returns-map_error (unless_panic (wrapping internal))
                (node_device_path C h m d req.volume_id) s source s₁ searched,
            mounted ∙ ap (λ t. (ok tt, t)) (Returns-pure tt tt s₄ s' given).1,
          )
          | inr (e, s₄, failed, removed) ↦ absurd (
              cc (
                ap (λ (q : Result (Unit {0}) × C.State). q.0)
                  (sym (remove_target_lem req.target_path e s₄) ∙ removed)))
        ]

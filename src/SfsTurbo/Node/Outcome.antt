-- ===== src/SfsTurbo/Node/Outcome.antt =====
-- What NodePublishVolume of pkg/sfsturbo/nodeserver.go did when it returned without an error.
use huaweicloud_csi_driver.Prelude.{◌≡◌, ap, ◌∙◌, ◌⊎◌, inl, inr, ◌==◌, String, Bool, true, false}
use huaweicloud_csi_driver.Status.{ok, wrapping, refuse, internal}
use huaweicloud_csi_driver.Effect.{pure}
use huaweicloud_csi_driver.Effect.Returns.{
  Returns-bind, Returns-map_error, Returns-pure, Returns-if, Returns-guard,
}
use huaweicloud_csi_driver.Csi.Node.{NodePublishRequest}
use huaweicloud_csi_driver.SfsTurbo.Sdk.{TurboCloud, Turbo}
use huaweicloud_csi_driver.SfsTurbo.Driver.{SfsTurboDriver}
use huaweicloud_csi_driver.SfsTurbo.Services.{get_share}
use huaweicloud_csi_driver.Node.Host.{Host}
use huaweicloud_csi_driver.Node.Mounts.{IMount}
use huaweicloud_csi_driver.Node.Shell.{is_mounted}
use huaweicloud_csi_driver.SfsTurbo.Node.{
  turbo_mount_options, share_error, mount_turbo, node_publish_turbo,
}

module _ (C : TurboCloud) (h : Host C.State) (m : IMount C.State) (d : SfsTurboDriver) where
  -- The last call reported that something is mounted at the target, or mounted the location there.
  abbrev pub MountedAt : String → String → Bool → C.State → Type 0
  MountedAt location target readonly s' =
      ((s : C.State) × (is_mounted h target s ≡ (ok true, s')))
      ⊎ ((s : C.State) × (h.mount location target "nfs" (turbo_mount_options readonly) s
            ≡ (ok tt, s')))

  mount_turbo-MountedAt :
      (location target : String) (readonly : Bool) (s s' : C.State)
      → mount_turbo C h m d location target readonly s ≡ (ok tt, s')
      → MountedAt location target readonly s'
  unfolding mount_turbo
  mount_turbo-MountedAt location target readonly s s' done =
      let (mounted, s₁, tested, h₁) = Returns-bind (is_mounted h target) _ s tt s' done in
      elim (Returns-if mounted (pure tt) _ s₁ (ok tt, s') h₁) [
        | inl (yes_mounted, given) ↦ inl (
          s,
          tested
              ∙ (ap (λ b. (ok b, s₁)) yes_mounted
                  ∙ ap (λ t. (ok true, t)) (Returns-pure tt tt s₁ s' given).1),
        )
        | inr (_, rest) ↦
            let (_, s₂, _, h₂) = Returns-bind _ _ s₁ tt s' rest in
            inr (
              s₂,
              Returns-map_error (wrapping internal)
                  (h.mount location target "nfs" (turbo_mount_options readonly)) s₂ tt s' h₂,
            )
      ]

  -- Where NodePublishVolume returns without an error, the cloud reported the share with a location, and the
  -- last call reported that something is mounted at the target, or mounted that location there.
  pub node_publish_turbo-MountedAt :
      (req : NodePublishRequest) (s s' : C.State)
      → node_publish_turbo C h m d req s ≡ (ok tt, s')
      → (share : Turbo) × (s₁ : C.State) × (s₂ : C.State) × (get_share C d.cloud req.volume_id s₁
          ≡ (ok share, s₂))
        × ((share.export_location == "") ≡ false)
        × MountedAt share.export_location req.target_path req.readonly s'
  unfolding node_publish_turbo
  node_publish_turbo-MountedAt req s s' done =
      let (_, s₁, _, h₁) = Returns-bind _ _ s tt s' done in
      let (share, s₂, queried, h₂) = Returns-bind _ _ s₁ tt s' h₁ in
      let (located, h₃) =
        Returns-guard (share.export_location == "") (refuse internal) _ s₂ tt s' h₂ in
      (
        share,
        s₁,
        s₂,
        Returns-map_error share_error (get_share C d.cloud req.volume_id) s₁ share s₂ queried,
        located,
        mount_turbo-MountedAt share.export_location req.target_path req.readonly s₂ s' h₃,
      )

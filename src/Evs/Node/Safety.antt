-- ===== src/Evs/Node/Safety.antt =====
-- NodeStageVolume of pkg/evs/nodeserver.go never formats a device over something that is mounted.
use huaweicloud_csi_driver.Prelude.{
  ◌≡◌, ap, ◌≢◌, String, Bool, true, false, Option, none, some, List, [], ◌∷◌, if◌then◌else◌,
}
use huaweicloud_csi_driver.Status.{Error, Result, ok, wrapping, internal}
use huaweicloud_csi_driver.Effect.{M, pure, map_error}
use huaweicloud_csi_driver.Effect.Keeps.{
  Keeps, keeps_rules, Keeps-if, Keeps-attempt, Keeps-attempt_result, Keeps-fail, Keeps-pure,
}
use huaweicloud_csi_driver.Effect.Returns.{Returns-map_error}
use huaweicloud_csi_driver.Common.{IsTimer}
use huaweicloud_csi_driver.Csi.{AccessType, VolumeCapability}
use huaweicloud_csi_driver.Csi.Node.{NodeStageRequest}
use huaweicloud_csi_driver.Evs.Sdk.{Cloud, Volume}
use huaweicloud_csi_driver.Evs.Driver.{EvsDriver}
use huaweicloud_csi_driver.Evs.Services.Effects.{QueriesKeep, get_volume-Keeps}
use huaweicloud_csi_driver.Node.Host.{Host, DeviceMetadata}
use huaweicloud_csi_driver.Node.Mounts.{IMount}
use huaweicloud_csi_driver.Node.Metadatas.{
  get_from_metadata_service, path_of_device, metadata_device_path,
}
use huaweicloud_csi_driver.Evs.Node.{
  device_path_by_id, device_path_of, node_device_path, stage_validation, mount_formatted,
  resize_copy, nowhere, fs_type_of, mount_options_of, node_stage_volume,
}

-- A predicate that no search for a device changes, nor a test for a mount point, nor a resize.
pub record SearchesKeep {S : Type 0} (h : Host S) (m : IMount S) (P : S → Type 0) : Type 0 where
  pub http_get : (url : String) → Keeps P (h.http_get url)
  pub glob : (pattern : String) → Keeps P (h.glob pattern)
  pub get_device_path : (id : String) → Keeps P (m.get_device_path id)
  pub tests_mount : (target : String) → Keeps P (m.is_likely_not_mount_point_attach target)
  pub need_resize : (device target : String) → Keeps P (h.need_resize device target)
  pub resize : (device target : String) → Keeps P (h.resize device target)

module _ {S : Type 0} (h : Host S) {m : IMount S} {P : S → Type 0}
    (searches : SearchesKeep h m P) where
  get_from_metadata_service-Keeps : Keeps P (get_from_metadata_service h)
  unfolding get_from_metadata_service
  get_from_metadata_service-Keeps = search (keeps_rules, searches.http_get)

  path_of_device-Keeps :
      (id : String) (devices : List DeviceMetadata) → Keeps P (path_of_device h id devices)
  unfolding path_of_device
  path_of_device-Keeps id [] = Keeps-pure ""
  path_of_device-Keeps id (device ∷ rest) =
      let others = path_of_device-Keeps id rest in
      Keeps-if _ _ _
        (Keeps-attempt _ _ _ (searches.glob _) (λ e. Keeps-pure "") (λ paths. one paths others))
        others
    where
      one :
          (paths : List String)
          → Keeps P (path_of_device h id rest)
          → Keeps P (elim paths as (λ _. M S String) [
            | [] ↦ path_of_device h id rest
            | path ∷ more ↦ elim more as (λ _. M S String) [
              | [] ↦ pure path
              | other ∷ others' ↦ path_of_device h id rest
            ]
          ])
      one [] k = k
      one (path ∷ []) k = Keeps-pure path
      one (path ∷ other ∷ more) k = k

  metadata_device_path-Keeps : (id : String) → Keeps P (metadata_device_path h id)
  unfolding metadata_device_path
  metadata_device_path-Keeps id =
      search (keeps_rules, get_from_metadata_service-Keeps, path_of_device-Keeps)

module _ (C : Cloud) (h : Host C.State) (m : IMount C.State) (d : EvsDriver)
    (lawful : IsTimer C.timer) {P : C.State → Type 0} (queries : QueriesKeep C P)
    (searches : SearchesKeep h m P) where
  nowhere-Keeps : (e : Error) → Keeps P (nowhere C h m d e)
  nowhere-Keeps Error.panic = Keeps-fail _
  nowhere-Keeps _ = Keeps-pure ""

  device_path_by_id-Keeps : (id : String) → Keeps P (device_path_by_id C h m d id)
  unfolding device_path_by_id
  device_path_by_id-Keeps id =
      search (
        keeps_rules,
        searches.get_device_path,
        nowhere-Keeps,
        metadata_device_path-Keeps h searches,
      )

  device_path_of-Keeps : (v : Volume) (id : String) → Keeps P (device_path_of C h m d v id)
  unfolding device_path_of
  device_path_of-Keeps v id = search (keeps_rules, device_path_by_id-Keeps)

  node_device_path-Keeps : (id : String) → Keeps P (node_device_path C h m d id)
  unfolding node_device_path
  node_device_path-Keeps id =
      search
        (keeps_rules, get_volume-Keeps C d.cloud_credentials lawful queries, device_path_of-Keeps)

  stage_validation-Keeps :
      (id target : String) (capability : Option VolumeCapability)
      → Keeps P (stage_validation C h m d id target capability)
  unfolding stage_validation
  stage_validation-Keeps id target none = Keeps-fail _
  stage_validation-Keeps id target (some capability) =
      search (keeps_rules, get_volume-Keeps C d.cloud_credentials lawful queries)

  resize_copy-Keeps :
      (v : Volume) (device target : String) → Keeps P (resize_copy C h m d v device target)
  unfolding resize_copy
  resize_copy-Keeps v device target =
      search (keeps_rules, searches.need_resize, searches.resize) depth 8

  module _ (target : String)
      (mounted : (s : C.State) → (m.is_likely_not_mount_point_attach target s).0 ≢ ok true) where
    mount_formatted-Keeps :
        (device : String) (access_type : AccessType)
        → Keeps P (mount_formatted C h m d device target access_type)
    unfolding mount_formatted
    mount_formatted-Keeps device access_type =
        Keeps-attempt_result _ _ _ (search (keeps_rules, searches.tests_mount)) Keeps-fail go
      where
        tested : M C.State Bool
        tested = map_error (wrapping internal) (m.is_likely_not_mount_point_attach target)

        go :
            (not_mnt : Bool) (s : C.State)
            → P s
            → (tested s).0 ≡ ok not_mnt
            → Keeps P (
                if not_mnt
                then map_error (wrapping internal) (
                    h.format_and_mount device target
                      (fs_type_of access_type)
                      (mount_options_of access_type))
                else pure tt)
        go true s p e = absurd (
            mounted s (
              ap (λ (q : Result Bool × C.State). q.0)
                (Returns-map_error (wrapping internal) (m.is_likely_not_mount_point_attach target) s
                  true (tested s).1 (ap (λ r. (r, (tested s).1)) e))))
        go false s p e = Keeps-pure tt

  -- NodeStageVolume formats no device over something that is mounted: as long as every test reports that
  -- something is mounted at the target, it changes nothing but by searches for the device and by a resize.
  pub node_stage_volume-Keeps :
      (req : NodeStageRequest)
      → ((s : C.State) → (m.is_likely_not_mount_point_attach req.staging_target_path s).0 ≢ ok true)
      → Keeps P (node_stage_volume C h m d req)
  unfolding node_stage_volume
  node_stage_volume-Keeps req mounted =
      search
        (
          keeps_rules,
          stage_validation-Keeps,
          node_device_path-Keeps,
          mount_formatted-Keeps req.staging_target_path mounted,
          resize_copy-Keeps,
        )
        depth 8

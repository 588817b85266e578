-- ===== src/Evs/Controller/Codes.antt =====
-- The status codes that the controller's calls can return.
use huaweicloud_csi_driver.Prelude.{
  refl, inl, inr, String, Bool, Option, none, some, List, [], ◌∷◌, ℤ, if◌then◌else◌, true, false,
}
use huaweicloud_csi_driver.Prelude.Dict.{Dict}
use huaweicloud_csi_driver.Status.{
  Code, Error, status, refuse, invalid_argument, not_found, out_of_range, internal,
}
use huaweicloud_csi_driver.Effect.Raises.{
  OneOf, Raises, Raises-fail, Raises-if, Raises-lift_ok, raises_rules,
}
use huaweicloud_csi_driver.Config.Available.{get_evs_v2_client_lem, get_ecs_v21_client_lem}
use huaweicloud_csi_driver.Csi
use huaweicloud_csi_driver.Csi.{
  VolumeCapability, CapacityRange, VolumeContentSource, source_unset, source_snapshot,
  source_volume, CreateVolumeRequest, PublishRequest, ExpandRequest,
}
use huaweicloud_csi_driver.Evs.Sdk.{Cloud, Volume}
use huaweicloud_csi_driver.Evs.Driver.{EvsDriver}
use huaweicloud_csi_driver.Evs.Services.Volumes.{query_error, get_volume}
use huaweicloud_csi_driver.Evs.Services.Computes.{get_server}
use huaweicloud_csi_driver.Evs.Controller.Create.{
  create_volume_validation, parsed, numeric_parameter, get_io_and_through, tuning, snapshot_error,
  check_snapshot_exists, create_new, create_or_reuse, create_volume,
}
use huaweicloud_csi_driver.Evs.Controller.Publish.{
  VolumeAttachmentStatus, not_attached, attaching_current_server, publish_validation, published,
  publish_by_status, controller_publish_volume, unpublish_validation, detach_error,
  controller_unpublish_volume,
}
use huaweicloud_csi_driver.Evs.Controller.Volumes.{expand_to, expand_in, controller_expand_volume}
use huaweicloud_csi_driver.Evs.Controller.Snapshots.{take_or_reuse, take_snapshot}

either : (Q : Error → Type 0) (b : Bool) (x y : Error) → Q x → Q y → Q (if b then x else y)
either Q true x y qx qy = qx
either Q false x y qx qy = qy

-- The calls whose errors are no other than Internal, NotFound and InvalidArgument.
module _ (C : Cloud) (d : EvsDriver) (Q : Error → Type 0)
    (q_internal : (t : String) → Q (status internal t)) (q_not_found : Q (refuse not_found)) where
  query_error-Q : (e : Error) → Q (query_error e)
  unfolding query_error
  query_error-Q e = either Q _ _ _ q_not_found (q_internal _)

  get_volume-Raises : (id : String) → Raises Q (get_volume C d.cloud_credentials id)
  unfolding get_volume
  get_volume-Raises id =
      search (
        raises_rules,
        Raises-lift_ok _ _ (get_evs_v2_client_lem d.cloud_credentials),
        query_error-Q,
      )

  get_server-Raises : (id : String) → Raises Q (get_server C d.cloud_credentials id)
  unfolding get_server
  get_server-Raises id =
      search (
        raises_rules,
        Raises-lift_ok _ _ (get_ecs_v21_client_lem d.cloud_credentials),
        query_error-Q,
      )

  snapshot_error-Q : (e : Error) → Q (snapshot_error C e)
  unfolding snapshot_error
  snapshot_error-Q e = either Q _ _ _ q_not_found (q_internal _)

  check_snapshot_exists-Raises :
      (source : Option VolumeContentSource)
      → Raises Q (check_snapshot_exists C d.cloud_credentials source)
  unfolding check_snapshot_exists
  check_snapshot_exists-Raises none = search raises_rules
  check_snapshot_exists-Raises (some source_unset) = search raises_rules
  check_snapshot_exists-Raises (some (source_volume id)) = search raises_rules
  check_snapshot_exists-Raises (some (source_snapshot id)) = search (raises_rules, snapshot_error-Q)

  published-Raises :
      (volume_id node_id : String) → Raises Q (published C d.cloud_credentials volume_id node_id)
  unfolding published
  published-Raises volume_id node_id = search (raises_rules, get_volume-Raises)

  publish_by_status-Raises :
      (volume : Volume) (volume_id node_id : String) (s : VolumeAttachmentStatus)
      → Raises Q (publish_by_status C d.cloud_credentials volume volume_id node_id s)
  unfolding publish_by_status
  publish_by_status-Raises volume volume_id node_id not_attached =
      search (raises_rules, q_internal, published-Raises)
  publish_by_status-Raises volume volume_id node_id attaching_current_server =
      search (raises_rules, q_internal, published-Raises)
  publish_by_status-Raises volume volume_id node_id _ = search (raises_rules, q_internal)

  take_or_reuse-Raises :
      (name volume_id : String) (found : Option Csi.Snapshot)
      → Raises Q (take_or_reuse C d.cloud_credentials name volume_id found)
  unfolding take_or_reuse
  take_or_reuse-Raises name volume_id (some response) = search raises_rules
  take_or_reuse-Raises name volume_id none = search (raises_rules, q_internal, get_volume-Raises)

  module _ (q_invalid : Q (refuse invalid_argument)) where
    validation-Raises :
        (name : String) (capabilities : List VolumeCapability)
        → Raises Q (create_volume_validation {S = C.State} name capabilities)
    unfolding create_volume_validation
    validation-Raises name [] = search (raises_rules, q_invalid)
    validation-Raises name (capability ∷ rest) = search (raises_rules, q_invalid)

    parsed-Raises : (o : Option ℤ) → Raises Q (parsed {S = C.State} o)
    unfolding parsed
    parsed-Raises none = search (raises_rules, q_invalid)
    parsed-Raises (some n) = search raises_rules

    tuning-Raises : (parameters : Dict String) → Raises Q (tuning {S = C.State} parameters)
    unfolding tuning get_io_and_through numeric_parameter
    tuning-Raises parameters = search (raises_rules, parsed-Raises) depth 8

    create_or_reuse-Raises :
        (req : CreateVolumeRequest) (found : Option Volume)
        → Raises Q (create_or_reuse C d req found)
    unfolding create_or_reuse create_new
    create_or_reuse-Raises req (some vol) = search raises_rules
    create_or_reuse-Raises req none =
        search
          (raises_rules, check_snapshot_exists-Raises, tuning-Raises, q_internal, get_volume-Raises)
          depth 8

    publish_validation-Raises :
        (volume_id node_id : String) (capability : Option VolumeCapability)
        → Raises Q (publish_validation C d.cloud_credentials volume_id node_id capability)
    unfolding publish_validation
    publish_validation-Raises volume_id node_id none = search (raises_rules, q_invalid)
    publish_validation-Raises volume_id node_id (some capability) =
        search (raises_rules, q_invalid, get_server-Raises)

    unpublish_validation-Raises :
        (volume_id node_id : String)
        → Raises Q (unpublish_validation C d.cloud_credentials volume_id node_id)
    unfolding unpublish_validation
    unpublish_validation-Raises volume_id node_id =
        search (raises_rules, q_invalid, get_server-Raises, get_volume-Raises) depth 7

    create_volume-Raises : (req : CreateVolumeRequest) → Raises Q (create_volume C d req)
    unfolding create_volume
    create_volume-Raises req =
        search (raises_rules, validation-Raises, q_internal, create_or_reuse-Raises)

    publish-Raises : (req : PublishRequest) → Raises Q (controller_publish_volume C d req)
    unfolding controller_publish_volume
    publish-Raises req =
        search
          (raises_rules, publish_validation-Raises, get_volume-Raises, publish_by_status-Raises)

    unpublish-Raises :
        (volume_id node_id : String) → Raises Q (controller_unpublish_volume C d volume_id node_id)
    unfolding controller_unpublish_volume detach_error
    unpublish-Raises volume_id node_id =
        search (raises_rules, unpublish_validation-Raises, q_internal) depth 8

    expand_to-Raises :
        (volume_id : String) (range : CapacityRange)
        → Q (refuse out_of_range)
        → Raises Q (expand_to C d volume_id range)
    unfolding expand_to
    expand_to-Raises volume_id range q_range =
        search (raises_rules, q_internal, get_volume-Raises) depth 8

    expand-Raises :
        (req : ExpandRequest)
        → Q (refuse out_of_range)
        → Raises Q (controller_expand_volume C d req)
    unfolding controller_expand_volume expand_in
    expand-Raises req q_range = Raises-if _ _ _ (Raises-fail _ q_invalid) (go req.capacity_range)
      where
        go : (range : Option CapacityRange) → Raises Q (expand_in C d req.volume_id range)
        go none = Raises-fail _ q_invalid
        go (some range) = expand_to-Raises req.volume_id range q_range

-- The three codes that CreateVolume and the publish calls fail with.
abbrev pub three_codes : List Code
three_codes = invalid_argument ∷ not_found ∷ internal ∷ []

module _ (C : Cloud) (d : EvsDriver) where
  -- CreateVolume, ControllerPublishVolume and ControllerUnpublishVolume fail with InvalidArgument,
  -- NotFound or Internal alone, whatever the cloud answers. So CreateVolume never answers
  -- AlreadyExists, which its check for a volume of the same name and another size returns.
  pub publishing_codes :
      (create : CreateVolumeRequest) (publish : PublishRequest) (volume_id node_id : String)
      → Raises (OneOf three_codes) (create_volume C d create)
        × Raises (OneOf three_codes) (controller_publish_volume C d publish)
        × Raises (OneOf three_codes) (controller_unpublish_volume C d volume_id node_id)
  publishing_codes create publish volume_id node_id = (
    create_volume-Raises C d (OneOf three_codes) (λ t. inr (inr (inl refl))) (inr (inl refl))
        (inl refl) create,
    publish-Raises C d (OneOf three_codes) (λ t. inr (inr (inl refl))) (inr (inl refl)) (inl refl)
        publish,
    unpublish-Raises C d (OneOf three_codes) (λ t. inr (inr (inl refl))) (inr (inl refl)) (inl refl)
        volume_id node_id,
  )

  -- ControllerExpandVolume fails with InvalidArgument, OutOfRange, NotFound or Internal alone.
  pub expand_codes :
      (req : ExpandRequest)
      → Raises
          (OneOf (invalid_argument ∷ out_of_range ∷ not_found ∷ internal ∷ []))
          (controller_expand_volume C d req)
  expand_codes req =
      expand-Raises C d (OneOf (invalid_argument ∷ out_of_range ∷ not_found ∷ internal ∷ []))
        (λ t. inr (inr (inr (inl refl)))) (inr (inr (inl refl))) (inl refl) req (inr (inl refl))

  -- CreateSnapshot fails with NotFound or Internal alone.
  pub snapshot_codes :
      (name volume_id : String)
      → Raises (OneOf (not_found ∷ internal ∷ [])) (take_snapshot C d name volume_id)
  unfolding take_snapshot
  snapshot_codes name volume_id = search (
    raises_rules,
    q_internal,
    take_or_reuse-Raises C d (OneOf (not_found ∷ internal ∷ [])) q_internal (inl refl),
  )
    where
      q_internal : (t : String) → OneOf (not_found ∷ internal ∷ []) (status internal t)
      q_internal t = inr (inl refl)

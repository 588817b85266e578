-- ===== src/SfsTurbo/Tests/Calls.antt =====
-- Tests of the SFS Turbo driver and of its theorems.
use huaweicloud_csi_driver.Prelude.{◌≡◌, refl, false, some, [], ◌∷◌, pos, ◌≤ℤ◌, wrap, ◌+ℤ◌, ◌-ℤ◌}
use huaweicloud_csi_driver.Status.{ok, is_not_found}
use huaweicloud_csi_driver.Effect.{attempt}
use huaweicloud_csi_driver.Utils.{round_up_size, gb_byte_size}
use huaweicloud_csi_driver.Utils.Decimal.{atoi}
use huaweicloud_csi_driver.Common.{wait_for_completed}
use huaweicloud_csi_driver.Common.Tests.{poll_times, instant_timer-IsTimer}
use huaweicloud_csi_driver.Config.{new_service_client, sfs_turbo_v1_client}
use huaweicloud_csi_driver.Config.Access.{get_sfs_turbo_v1_client}
use huaweicloud_csi_driver.Csi.{CapacityRange, ExpandRequest}
use huaweicloud_csi_driver.SfsTurbo.Sdk.{CreateOpts}
use huaweicloud_csi_driver.SfsTurbo.Services.{
  size_of, get_share, delete_share, delete_present, deleted_condition, wait_for_share_deleted,
  delete_share_completed, expand_share, expanded_condition, wait_for_share_expanded,
  expand_share_completed,
}
use huaweicloud_csi_driver.SfsTurbo.Controller.{
  share_size, turbo_expand_validation, expansion, same_opts, opts_of,
}
use huaweicloud_csi_driver.SfsTurbo.Controller.Expansion.{ExpandedFrom, expand_turbo-Expanded}
use huaweicloud_csi_driver.SfsTurbo.Controller.Calls.{
  compare_share, find_share, delete_turbo, expand_turbo_to, expand_turbo,
}
use huaweicloud_csi_driver.SfsTurbo.Controller.Search.{FoundIn, find_share-FoundIn}
use huaweicloud_csi_driver.SfsTurbo.Controller.Outcome.{
  Gone, delete_turbo-Gone, Sized, expand_share_completed-Sized,
}
use huaweicloud_csi_driver.SfsTurbo.Tests.{
  World, enlarged, small_cloud, credentials, driver, data_share, start, small_range,
}

minimum : share_size small_range start ≡ (ok (pos 500), start)
unfolding share_size round_up_size
minimum = refl

abbrev after_deletion : World
after_deletion = record { shares = []; requests = "delete" ∷ [] }

deleted : delete_turbo small_cloud driver "share-1" start ≡ (ok tt, after_deletion)
unfolding delete_turbo delete_share_completed delete_present delete_share wait_for_share_deleted
    deleted_condition get_share wait_for_completed poll_times is_not_found get_sfs_turbo_v1_client
    sfs_turbo_v1_client new_service_client attempt
deleted = refl

delete_turbo-Gone_example : Gone small_cloud "share-1" after_deletion
delete_turbo-Gone_example =
    delete_turbo-Gone small_cloud instant_timer-IsTimer driver "share-1" start after_deletion
      deleted

abbrev expand_request : ExpandRequest
expand_request = record {
  volume_id = "share-1";
  capacity_range = some (record { required_bytes = pos 547608330240; limit_bytes = pos 0 });
}

abbrev after_expansion : World
after_expansion = record { shares = enlarged (data_share ∷ []); requests = "expand" ∷ [] }

expanded :
    expand_share_completed small_cloud credentials "share-1" (pos 600) start
    ≡ (ok tt, after_expansion)
unfolding expand_share_completed expand_share wait_for_share_expanded expanded_condition get_share
    size_of wait_for_completed poll_times get_sfs_turbo_v1_client sfs_turbo_v1_client
    new_service_client atoi attempt
expanded = refl

-- From 500 GiB, 510 GiB are too small a step.
stepped :
    expand_turbo small_cloud driver expand_request start
    ≡ (ok (record { capacity_bytes = pos 600; node_expansion_required = false }), after_expansion)
unfolding expand_turbo expand_turbo_to turbo_expand_validation round_up_size expansion wrap ◌+ℤ◌
    ◌-ℤ◌ expand_share_completed expand_share wait_for_share_expanded expanded_condition get_share
    size_of wait_for_completed poll_times get_sfs_turbo_v1_client sfs_turbo_v1_client
    new_service_client atoi attempt
stepped = refl

expand_turbo-Expanded_example :
    (range : CapacityRange) × (expand_request.capacity_range ≡ some range)
    × (round_up_size range.required_bytes gb_byte_size ≤ℤ pos 32768)
    × ExpandedFrom small_cloud driver "share-1"
        (round_up_size range.required_bytes gb_byte_size)
        (record { capacity_bytes = pos 600; node_expansion_required = false })
        after_expansion
expand_turbo-Expanded_example =
    expand_turbo-Expanded small_cloud driver expand_request
      (record { capacity_bytes = pos 600; node_expansion_required = false }) start after_expansion
      stepped

expand_share_completed-Sized_example : Sized small_cloud "share-1" (pos 600) after_expansion
expand_share_completed-Sized_example =
    expand_share_completed-Sized small_cloud credentials "share-1" (pos 600) start after_expansion
      expanded

abbrev same_options : CreateOpts
same_options = record {
  name = "pvc-1";
  share_proto = "NFS";
  share_type = "STANDARD";
  size = pos 500;
  availability_zone = "cn-north-4a";
  vpc_id = "vpc-1";
  subnet_id = "subnet-1";
  security_group_id = "group-1";
  description = "";
}

found : find_share small_cloud (data_share ∷ []) same_options start ≡ (ok (some data_share), start)
unfolding find_share compare_share size_of same_opts opts_of atoi attempt
found = refl

find_share-FoundIn_example : FoundIn small_cloud (data_share ∷ []) same_options (some data_share)
find_share-FoundIn_example =
    find_share-FoundIn small_cloud (data_share ∷ []) same_options start start (some data_share)
      found

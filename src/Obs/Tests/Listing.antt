-- ===== src/Obs/Tests/Listing.antt =====
-- Tests of the listing of buckets and of the deletion of objects, and of their theorems.
use huaweicloud_csi_driver.Prelude.{
  ℕ, zero, suc, ◌≡◌, refl, String, none, some, List, [], ◌∷◌, length, take, drop, map, pos, arith,
}
use huaweicloud_csi_driver.Status.{ok, err, panic}
use huaweicloud_csi_driver.Effect.{attempt}
use huaweicloud_csi_driver.Obs.Services.Client.{get_obs_client}
use huaweicloud_csi_driver.Obs.Services.Buckets.{
  get_bucket_metadata, get_bucket_capacity, get_parallel_fs_bucket, page_start, bucket_count,
  page_names, get_all, list_buckets,
}
use huaweicloud_csi_driver.Obs.Services.Objects.{delete_objects}
use huaweicloud_csi_driver.Obs.Services.Deletion.{
  Connects, ServesObjects, Emptied, delete_objects-Emptied,
}
use huaweicloud_csi_driver.Obs.Controller.{bucket_entry, list_obs, obs_next_token}
use huaweicloud_csi_driver.Obs.Controller.Paging.{
  ServesBuckets, follow, bucket_of, follow_buckets, list_obs-panics,
}
use huaweicloud_csi_driver.Obs.Tests.{enabled, small_cloud, fixed_cloud, credentials, driver, start}

small_cloud-Connects : Connects small_cloud
small_cloud-Connects = record {
  client = λ endpoint. record { endpoint = endpoint };
  made = λ endpoint s. refl;
  logged = λ s. refl;
}

drop_taken : (n : ℕ) (xs : List String) → drop (length (take n xs)) xs ≡ drop n xs
drop_taken zero xs = refl
drop_taken (suc n) [] = refl
drop_taken (suc n) (x ∷ xs) = drop_taken n xs

small_cloud-ServesObjects : ServesObjects small_cloud "media"
small_cloud-ServesObjects = record {
  objects = λ w. w.objects;
  listed = λ client n s. refl;
  deleted = λ client n s. (
    record s { objects = drop (length (take n s.objects)) s.objects },
    refl,
    drop_taken n s.objects,
  );
}

delete_objects-Emptied_example :
    Emptied small_cloud credentials "media" small_cloud-Connects small_cloud-ServesObjects
      (delete_objects small_cloud credentials 2 "media" start)
unfolding small_cloud-ServesObjects
delete_objects-Emptied_example =
    delete_objects-Emptied small_cloud credentials "media" small_cloud-Connects
      small_cloud-ServesObjects 1 start (omega arith)

fixed_cloud-ServesBuckets : ServesBuckets fixed_cloud ("media" ∷ "photos" ∷ "videos" ∷ [])
fixed_cloud-ServesBuckets = record {
  connects = record {
    client = λ endpoint. record { endpoint = endpoint };
    made = λ endpoint s. refl;
    logged = λ s. refl;
  };
  listed = λ client s. refl;
  metadata = λ name. enabled;
  described = λ client name s. refl;
  parallel = λ name. refl;
  quota = λ name. pos 1000;
  measured = λ client name s. refl;
}

-- Pages of two: the second page has one bucket and no token.
second_page :
    list_obs fixed_cloud driver (record { max_entries = pos 2; starting_token = "photos" }) start
    ≡ (
      ok (record {
        entries =
            record {
              volume = record {
                volume_id = "videos";
                capacity_bytes = pos 1000;
                accessible_topology = [];
                volume_context = [];
                content_source = none;
              };
              published_node_ids = [];
            }
            ∷ [];
        next_token = "";
      }),
      start,
    )
unfolding list_obs list_buckets bucket_count page_names page_start get_all get_parallel_fs_bucket
    get_bucket_metadata get_bucket_capacity get_obs_client obs_next_token attempt
second_page = refl

follow_buckets_example :
    follow fixed_cloud driver 2 4 "" start
    ≡ some (
        map bucket_entry (
          map
            (bucket_of fixed_cloud driver
              ("media" ∷ "photos" ∷ "videos" ∷ [])
              fixed_cloud-ServesBuckets)
            ("media" ∷ "photos" ∷ "videos" ∷ [])))
follow_buckets_example =
    follow_buckets fixed_cloud driver ("media" ∷ "photos" ∷ "videos" ∷ []) fixed_cloud-ServesBuckets
      1 start (refl, (refl, (refl, tt)), (refl, (refl, tt), (refl, tt, tt)))

list_obs-panics_example :
    list_obs fixed_cloud driver (record { max_entries = pos 2; starting_token = "music" }) start
    ≡ (err panic, start)
list_obs-panics_example =
    list_obs-panics fixed_cloud driver ("media" ∷ "photos" ∷ "videos" ∷ [])
      fixed_cloud-ServesBuckets "music" 2 start refl (refl, (refl, (refl, tt)))

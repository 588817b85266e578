-- ===== src/Obs/Controller/Paging.antt =====
-- ListVolumes of pkg/obs/controllerserver.go, page by page, and its markers.
use huaweicloud_csi_driver.Prelude.{
  ℕ, zero, suc, ◌+◌, ◌-◌, ◌≤◌, ◌<◌, ◌≡◌, refl, ap, ◌∙◌, inl, inr, ◌==◌, String, true, false,
  Bool-cases, Option, none, some, ltb_ℤ, List, [], ◌∷◌, ◌++◌, map, length, length-map, take, drop,
  take_all, length-take_le, length-drop, drop-drop, take-append-drop, All, arith, leb,
  if◌then◌else◌, ℤ, pos,
}
use mathlib.Core.List.{map-append}
use huaweicloud_csi_driver.Status.{Result, ok, err, panic}
use huaweicloud_csi_driver.Effect.{attempt}
use huaweicloud_csi_driver.Csi.{ListVolumesEntry, ListVolumesResponse}
use huaweicloud_csi_driver.Obs.Sdk.{ObsCloud, ObsClient, BucketMetadata}
use huaweicloud_csi_driver.Obs.Driver.{ObsDriver}
use huaweicloud_csi_driver.Obs.Services.Client.{obs_endpoint}
use huaweicloud_csi_driver.Obs.Services.Deletion.{Connects, get_obs_client_lem}
use huaweicloud_csi_driver.Obs.Services.Buckets.{
  Bucket, get_bucket_metadata, get_bucket_capacity, get_parallel_fs_bucket, marker_index,
  page_start, bucket_count, page_names, get_all, list_buckets,
}
use huaweicloud_csi_driver.Obs.Services.Markers.{
  Distinct, nth, nth_nonempty, page_start-nth, last?-take, nth-drop, last?-map,
}
use huaweicloud_csi_driver.Obs.Controller.{bucket_entry, obs_next_token, list_obs}

-- The cloud lists these buckets, all of them parallel file systems, and nothing changes meanwhile.
pub record ServesBuckets (C : ObsCloud) (names : List String) : Type 0 where
  pub connects : Connects C
  pub listed :
      (client : ObsClient) (s : C.State)
      → C.list_buckets client (record { query_location = false; bucket_type = "POSIX" }) s
        ≡ (ok names, s)
  pub metadata : String → BucketMetadata
  pub described :
      (client : ObsClient) (name : String) (s : C.State)
      → C.get_bucket_metadata client name s ≡ (ok (metadata name), s)
  pub parallel : (name : String) → ((metadata name).fs_status == "Enabled") ≡ true
  pub quota : String → ℤ
  pub measured :
      (client : ObsClient) (name : String) (s : C.State)
      → C.get_bucket_quota client name s ≡ (ok (quota name), s)

-- A client that follows the tokens from page to page, for a number of pages at most.
module _ (C : ObsCloud) (d : ObsDriver) (size : ℕ) where
  abbrev with_rest :
      List ListVolumesEntry → Option (List ListVolumesEntry) → Option (List ListVolumesEntry)
  with_rest entries none = none
  with_rest entries (some rest) = some (entries ++ rest)

  read_page :
      Result ListVolumesResponse
      → (String → Option (List ListVolumesEntry))
      → Option (List ListVolumesEntry)
  read_page (err e) rest = none
  read_page (ok page) rest =
      if page.next_token == ""
      then some page.entries
      else with_rest page.entries (rest page.next_token)

  pub follow : ℕ → String → C.State → Option (List ListVolumesEntry)
  follow zero token s = none
  follow (suc pages) token s =
      let (r, s') = list_obs C d (record { max_entries = pos size; starting_token = token }) s in
      read_page r (λ next. follow pages next s')

module _ (C : ObsCloud) (d : ObsDriver) (names : List String) (served : ServesBuckets C names) where
  -- The bucket of a name, as the cloud describes it.
  abbrev pub bucket_of : String → Bucket
  bucket_of name = record {
    bucket_name = name;
    region = (served.metadata name).location;
    az_redundancy = (served.metadata name).az_redundancy;
    enterprise_project_id = (served.metadata name).epid;
    capacity = served.quota name;
  }

  get_parallel_fs_bucket_lem :
      (name : String) (s : C.State)
      → get_parallel_fs_bucket C d.cloud name s ≡ (ok (bucket_of name), s)
  unfolding get_parallel_fs_bucket get_bucket_metadata get_bucket_capacity attempt
  get_parallel_fs_bucket_lem name s =
      rw
        (
          get_obs_client_lem C d.cloud served.connects s,
          served.described (served.connects.client (obs_endpoint d.cloud)) name s,
          served.parallel name,
          get_obs_client_lem C d.cloud served.connects s,
          served.measured (served.connects.client (obs_endpoint d.cloud)) name s,
        )
        refl

  get_all_lem :
      (wanted : List String) (s : C.State)
      → get_all C d.cloud wanted s ≡ (ok (map bucket_of wanted), s)
  unfolding get_all
  get_all_lem [] s = refl
  get_all_lem (name ∷ rest) s = rw (get_parallel_fs_bucket_lem name s, get_all_lem rest s) refl

  abbrev page_of : ℕ → ℕ → List Bucket
  page_of size k = map bucket_of (take size (drop k names))

  count_is_not_negative :
      (marker : String) (size : ℕ)
      → page_start marker names ≤ length names
      → ltb_ℤ (bucket_count marker names (pos size)) (pos 0) ≡ false
  unfolding bucket_count
  count_is_not_negative marker size h = ground arith

  size_is_not_negative : (size : ℕ) → ltb_ℤ (pos size) (pos 0) ≡ false
  size_is_not_negative size = ground arith

  page_lem :
      (size k : ℕ) (token : String) (s : C.State)
      → page_start token names ≡ k
      → k ≤ length names
      → list_obs C d (record { max_entries = pos size; starting_token = token }) s ≡ (
        ok (record {
          entries = map bucket_entry (page_of size k);
          next_token = obs_next_token (page_of size k) (pos size);
        }),
        s,
      )
  unfolding list_obs list_buckets page_names attempt
  page_lem size k token s starts le =
      rw
        (
          size_is_not_negative size,
          get_obs_client_lem C d.cloud served.connects s,
          served.listed (served.connects.client (obs_endpoint d.cloud)) s,
          count_is_not_negative token size (omega (arith, starts)),
          starts,
          get_all_lem (take size (drop k names)) s,
        )
        refl

  joined_pages :
      (size k : ℕ)
      → map bucket_entry (page_of size k)
          ++ map bucket_entry (map bucket_of (drop (k + size) names))
        ≡ map bucket_entry (map bucket_of (drop k names))
  joined_pages size k =
      rw
        (← drop-drop k size names, ← map-append, ← map-append, take-append-drop size (drop k names))

  -- Behind a full page the token is the name of its last bucket, and behind a shorter one there is none.
  next_token_more :
      (m k : ℕ)
      → k + m < length names
      → obs_next_token (page_of (suc m) k) (pos (suc m)) ≡ nth names (k + m)
  unfolding obs_next_token
  next_token_more m k h =
      let full : length (page_of (suc m) k) ≡ suc m =
        length-map bucket_of (take (suc m) (drop k names))
        ∙ length-take_le (suc m) (drop k names) (omega (arith, length-drop k names)) in
      rw
        (
          full,
          last?-map bucket_of (take (suc m) (drop k names)) (nth (drop k names) m)
              (last?-take (drop k names) m (omega (arith, length-drop k names))),
          nth-drop names k m,
        )
        (ground arith)

  next_token_end :
      (m k : ℕ)
      → k ≤ length names
      → length names < k + suc m
      → obs_next_token (page_of (suc m) k) (pos (suc m)) ≡ ""
  unfolding obs_next_token
  next_token_end m k le h =
      let short : take (suc m) (drop k names) ≡ drop k names =
        take_all (suc m) (drop k names) (omega (arith, length-drop k names)) in
      let n : length (page_of (suc m) k) ≡ length names - k =
        length-map bucket_of (take (suc m) (drop k names))
        ∙ (ap (length {0}) short ∙ length-drop k names) in
      rw n (ground arith)

  module _ (m : ℕ) (distinct : Distinct names) where
    follow_from :
        (pages k : ℕ) (token : String) (s : C.State)
        → page_start token names ≡ k
        → k ≤ length names
        → length names - k < pages
        → follow C d (suc m) pages token s ≡ some (map bucket_entry (map bucket_of (drop k names)))
    unfolding follow read_page
    follow_from zero k token s starts le enough = absurd (omega arith)
    follow_from (suc pages) k token s starts le enough =
        elim (Bool-cases (leb (k + suc m) (length names))) [
          | inl full ↦
              let inside : k + m < length names = ground arith in
              rw
                (
                  page_lem (suc m) k token s starts le,
                  read_page,
                  next_token_more m k inside,
                  nth_nonempty names (k + m) inside distinct,
                  follow_from pages (k + suc m) (nth names (k + m)) s
                      (page_start-nth names (k + m) inside distinct ∙ omega arith) (ground arith)
                      (ground arith),
                )
                (ap some (joined_pages (suc m) k))
          | inr last ↦
              rw
                (
                  page_lem (suc m) k token s starts le,
                  read_page,
                  next_token_end m k le (ground arith),
                  take_all (suc m) (drop k names) (ground (arith, length-drop k names)),
                )
                refl
        ]

  -- A client that follows the tokens of ListVolumes from the first page on gets every bucket once and in
  -- order, whatever positive page size it asks for, if no two buckets have one name.
  pub follow_buckets :
      (m : ℕ) (s : C.State)
      → Distinct names
      → follow C d (suc m) (suc (length names)) "" s ≡ some (map bucket_entry (map bucket_of names))
  unfolding page_start
  follow_buckets m s distinct =
      follow_from m distinct (suc (length names)) 0 "" s refl (omega arith) (omega arith)

  marker_index_end :
      (marker : String) (others : List String)
      → All (λ (name : String). (marker == name) ≡ false) others
      → marker_index marker others ≡ length others
  unfolding marker_index
  marker_index_end marker [] absent = refl
  marker_index_end marker (name ∷ rest) absent =
      rw absent.0 (ap suc (marker_index_end marker rest absent.1))

  page_start_end :
      (marker : String)
      → (marker == "") ≡ false
      → All (λ (name : String). (marker == name) ≡ false) names
      → page_start marker names ≡ suc (length names)
  unfolding page_start
  page_start_end marker nonempty absent =
      rw nonempty (ap suc (marker_index_end marker names absent))

  count_is_negative :
      (marker : String) (size : ℕ)
      → page_start marker names ≡ suc (length names)
      → ltb_ℤ (bucket_count marker names (pos size)) (pos 0) ≡ true
  unfolding bucket_count
  count_is_negative marker size h = rw h (ground arith)

  -- ListVolumes panics on a token that is the name of no bucket, as it is when the last bucket of a page was
  -- deleted before the next page is asked for: it makes a slice of a negative length.
  pub list_obs-panics :
      (marker : String) (size : ℕ) (s : C.State)
      → (marker == "") ≡ false
      → All (λ (name : String). (marker == name) ≡ false) names
      → list_obs C d (record { max_entries = pos size; starting_token = marker }) s ≡ (err panic, s)
  unfolding list_obs list_buckets attempt
  list_obs-panics marker size s nonempty absent =
      rw
        (
          size_is_not_negative size,
          get_obs_client_lem C d.cloud served.connects s,
          served.listed (served.connects.client (obs_endpoint d.cloud)) s,
          count_is_negative marker size (page_start_end marker nonempty absent),
        )
        refl

-- ===== src/Evs/Controller/Snapshots/Paging.antt =====
-- ListSnapshots, page by page: the tokens lead through all snapshots.
use huaweicloud_csi_driver.Prelude.{
  ℕ, zero, suc, ◌+◌, ◌-◌, ◌≤◌, ◌<◌, ◌≡◌, refl, ap, ◌∙◌, String, ◌==◌, Bool-cases, inl, inr, false,
  sym, leb, eq_iff, Option, none, some, List, ◌++◌, map, length, take, drop, take_all,
  length-take_le, length-drop, drop-drop, take-append-drop, arith, if◌then◌else◌, pos, two_63, wrap,
  ◌+ℤ◌,
}
use mathlib.Core.Option.{none-ne-some}
use mathlib.Core.List.{map-append}
use huaweicloud_csi_driver.Status.{Result, ok, err}
use huaweicloud_csi_driver.Effect.{attempt}
use huaweicloud_csi_driver.Config.{ServiceClient}
use huaweicloud_csi_driver.Config.Available.{get_evs_v2_client_lem}
use huaweicloud_csi_driver.Utils.Decimal.{atoi, itoa}
use huaweicloud_csi_driver.Utils.RoundTrip.{atoi-itoa}
use huaweicloud_csi_driver.Csi
use huaweicloud_csi_driver.Csi.{ListSnapshotsRequest, ListSnapshotsResponse}
use huaweicloud_csi_driver.Evs.Sdk.{Cloud, Snapshot}
use huaweicloud_csi_driver.Evs.Driver.{EvsDriver}
use huaweicloud_csi_driver.Evs.Services.Snapshots.{list_snapshots}
use huaweicloud_csi_driver.Evs.Controller.Snapshots.{
  build_snapshot_response, offset_or_zero, next_offset, list_snapshot_page,
}

-- The request for a page of a volume's snapshots.
abbrev pub page_request : String → ℕ → String → ListSnapshotsRequest
page_request volume_id size token = record {
  max_entries = pos size;
  starting_token = token;
  source_volume_id = volume_id;
  snapshot_id = "";
}

-- The cloud gives the available snapshots of the volume page by page out of `all`, with their
-- number, and nothing changes meanwhile.
pub record ServesPages (C : Cloud) (volume_id : String) (all : List Snapshot) : Type 0 where
  pub page :
      (client : ServiceClient) (size offset : ℕ) (s : C.State)
      → C.snapshots_list client
          (record {
            id = "";
            name = "";
            volume_id = volume_id;
            status = "available";
            limit = pos size;
            offset = pos offset;
          })
          s
        ≡ (ok (record { snapshots = take size (drop offset all); count = pos (length all) }), s)

-- A client that follows the tokens from page to page, for a number of pages at most.
module _ (C : Cloud) (d : EvsDriver) (volume_id : String) (size : ℕ) where
  abbrev joined : List Csi.Snapshot → Option (List Csi.Snapshot) → Option (List Csi.Snapshot)
  joined entries none = none
  joined entries (some rest) = some (entries ++ rest)

  -- What the client does with a page, given how it goes on behind a token.
  read_page :
      Result ListSnapshotsResponse
      → (String → Option (List Csi.Snapshot))
      → Option (List Csi.Snapshot)
  read_page (err e) rest = none
  read_page (ok page) rest =
      if page.next_token == ""
      then some page.entries
      else joined page.entries (rest page.next_token)

  pub follow : ℕ → String → C.State → Option (List Csi.Snapshot)
  follow zero token s = none
  follow (suc pages) token s =
      let (r, s') = list_snapshot_page C d (page_request volume_id size token) s in
      read_page r (λ next. follow pages next s')

module _ (C : Cloud) (d : EvsDriver) (volume_id : String) (all : List Snapshot)
    (served : ServesPages C volume_id all) where
  page_lem :
      (size k : ℕ) (token : String) (s : C.State)
      → offset_or_zero (atoi token) ≡ pos k
      → list_snapshot_page C d (page_request volume_id size token) s ≡ (
        ok (record {
          entries = map build_snapshot_response (take size (drop k all));
          next_token = next_offset (pos k) (length (take size (drop k all))) (pos (length all));
        }),
        s,
      )
  unfolding list_snapshot_page list_snapshots attempt
  page_lem size k token s h = rw (get_evs_v2_client_lem, h, served.page)

  -- Behind the last snapshot there is no token, and before it the token gives the next offset.
  next_offset_end :
      (k found : ℕ)
      → k + found ≡ length all
      → length all < two_63
      → next_offset (pos k) found (pos (length all)) ≡ ""
  unfolding next_offset wrap ◌+ℤ◌
  next_offset_end k found h small = ground arith

  next_offset_more :
      (k found : ℕ)
      → k + found < length all
      → length all < two_63
      → (next_offset (pos k) found (pos (length all)) ≡ itoa (pos (k + found)))
  unfolding next_offset wrap ◌+ℤ◌
  next_offset_more k found h small = ground arith

  itoa_nonempty : (n : ℕ) → n < two_63 → (itoa (pos n) == "") ≡ false
  unfolding atoi
  itoa_nonempty n h = elim (Bool-cases (itoa (pos n) == "")) [
    | inr e ↦ e
    | inl e ↦ absurd (
        none-ne-some (pos n)
          (sym (ap atoi ((eq_iff _ "").0 e)) ∙ atoi-itoa (pos n) (omega arith, omega arith)))
  ]

  -- A page and all behind it.
  rejoined :
      (size k : ℕ)
      → map build_snapshot_response (take size (drop k all))
          ++ map build_snapshot_response (drop (k + size) all)
        ≡ map build_snapshot_response (drop k all)
  rejoined size k = rw (← drop-drop k size all, ← map-append, take-append-drop size (drop k all))

  module _ (m : ℕ) (small : length all < two_63) where
    follow_from :
        (pages k : ℕ) (token : String) (s : C.State)
        → offset_or_zero (atoi token) ≡ pos k
        → k ≤ length all
        → length all - k < pages
        → follow C d volume_id (suc m) pages token s
          ≡ some (map build_snapshot_response (drop k all))
    unfolding follow read_page
    follow_from zero k token s h le enough = absurd (omega arith)
    follow_from (suc pages) k token s h le enough =
        elim (Bool-cases (leb (length all) (k + suc m))) [
          | inl last ↦ rw (
            page_lem (suc m) k token s h,
            read_page,
            take_all (suc m) (drop k all) (ground (arith, length-drop k all)),
            next_offset_end k (length (drop k all)) (ground (arith, length-drop k all)) small,
          )
          | inr more ↦
              let n_found : length (take (suc m) (drop k all)) ≡ suc m =
                length-take_le (suc m) (drop k all) (ground (arith, length-drop k all)) in
              rw
                (
                  page_lem (suc m) k token s h,
                  read_page,
                  n_found,
                  next_offset_more k (suc m) (ground arith) small,
                  itoa_nonempty (k + suc m) (ground arith),
                )
                (ap
                    (joined C d volume_id (suc m)
                      (map build_snapshot_response (take (suc m) (drop k all))))
                    (follow_from pages (k + suc m) (itoa (pos (k + suc m))) s
                      (ap offset_or_zero (atoi-itoa (pos (k + suc m)) (ground arith, omega arith)))
                      (ground arith) (ground arith))
                  ∙ ap some (rejoined (suc m) k))
        ]

  -- A client that follows the tokens from the first page on gets every available snapshot of the
  -- volume once and in order, whatever positive page size it asks for.
  pub follow_all :
      (m : ℕ) (s : C.State)
      → length all < two_63
      → follow C d volume_id (suc m) (suc (length all)) "" s
        ≡ some (map build_snapshot_response all)
  unfolding atoi
  follow_all m s small =
      follow_from m small (suc (length all)) 0 "" s refl (omega arith) (omega arith)

-- ===== src/Evs/Controller/Snapshots/Taking.antt =====
-- What CreateSnapshot of pkg/evs/controllerserver.go returns, on each of its branches.
use huaweicloud_csi_driver.Prelude.{
  ◌≡◌, ◌≢◌, refl, sym, ◌∙◌, ◌⊎◌, inl, inr, String, ◌==◌, eq_iff, true, false, Bool-cases, none,
  List, [], ◌∷◌, pos,
}
use mathlib.Core.Bool.{false≢true}
use huaweicloud_csi_driver.Status.{
  Error, Result, ok, err, status, text, wrapping, refuse, invalid_argument, already_exists,
  not_found, internal,
}
use huaweicloud_csi_driver.Effect.{attempt, ◌>>=◌, map_error}
use huaweicloud_csi_driver.Effect.Raises.{OneOf, Raises}
use huaweicloud_csi_driver.Utils.{gb_to_bytes}
use huaweicloud_csi_driver.Csi
use huaweicloud_csi_driver.Evs.Sdk.{Cloud, Snapshot, SnapshotListOpts, Volume, PagedList}
use huaweicloud_csi_driver.Evs.Driver.{EvsDriver}
use huaweicloud_csi_driver.Evs.Services.Volumes.{get_volume}
use huaweicloud_csi_driver.Evs.Services.Snapshots.{list_snapshots, create_snapshot_completed}
use huaweicloud_csi_driver.Evs.Controller.Snapshots.{
  build_snapshot_response, create_snapshot_validation, same_name, check_duplicate_snapshot_name,
  take_or_reuse, take_snapshot,
}
use huaweicloud_csi_driver.Evs.Controller.Codes.{snapshot_codes}

-- A snapshot in the form of an answer.
abbrev pub answer_of : Snapshot → Csi.Snapshot
answer_of snap = record {
  size_bytes = gb_to_bytes snap.size;
  snapshot_id = snap.id;
  source_volume_id = snap.volume_id;
  creation_time = snap.created_at;
  ready_to_use = true;
}

differ : (a b : String) → (a == b) ≡ false → a ≢ b
differ a b other same = false≢true (sym other ∙ (eq_iff a b).1 same)

module _ (C : Cloud) (d : EvsDriver) (name volume_id : String) where
  -- Internal, with some text.
  abbrev pub IsInternal : Result Csi.Snapshot × C.State → C.State → Type 0
  IsInternal r s = (t : String) × (r ≡ (err (status internal t), s))

  -- A new snapshot: the volume is queried, and then the snapshot is created.
  abbrev pub IsNew : Result Csi.Snapshot × C.State → C.State → Type 0
  IsNew r s =
      ((e : Error) × (s₁ : C.State) × (get_volume C d.cloud_credentials volume_id s ≡ (err e, s₁))
        × (r ≡ (err e, s₁)))
      ⊎ ((vol : Volume) × (s₁ : C.State) × (get_volume C d.cloud_credentials volume_id s
            ≡ (ok vol, s₁))
          × (((e : Error) × (s₂ : C.State) × (create_snapshot_completed C d.cloud_credentials name
                    volume_id s₁
                  ≡ (err e, s₂))
                × IsInternal r s₂)
              ⊎ ((snap : Snapshot) × (s₂ : C.State) × (create_snapshot_completed C
                      d.cloud_credentials name volume_id s₁
                    ≡ (ok snap, s₂))
                  × (r ≡ (ok (answer_of snap), s₂)))))

  -- By the snapshots that have the name.
  abbrev pub OfListed : List Snapshot → Result Csi.Snapshot × C.State → C.State → Type 0
  OfListed [] r s = IsNew r s
  OfListed (snap ∷ []) r s =
      ((snap.volume_id ≡ volume_id) × (r ≡ (ok (answer_of snap), s)))
      ⊎ ((snap.volume_id ≢ volume_id) × IsInternal r s)
  OfListed (snap ∷ other ∷ rest) r s = IsInternal r s

  -- The options of a list of the snapshots that have the name.
  abbrev pub opts : SnapshotListOpts
  opts = record { id = ""; name = name; volume_id = ""; status = ""; limit = pos 0; offset = pos 0 }

  -- By what the cloud answers to the list of the snapshots that have the name.
  abbrev pub OfNamed : Result Csi.Snapshot × C.State → C.State → Type 0
  OfNamed r s =
      ((e : Error) × (s₁ : C.State) × (list_snapshots C d.cloud_credentials opts s ≡ (err e, s₁))
        × IsInternal r s₁)
      ⊎ ((page : PagedList) × (s₁ : C.State) × (list_snapshots C d.cloud_credentials opts s
            ≡ (ok page, s₁))
          × OfListed page.snapshots r s₁)

  -- By the request.
  abbrev pub Outcome : Result Csi.Snapshot × C.State → C.State → Type 0
  Outcome r s =
      (((name ≡ "") ⊎ (volume_id ≡ "")) × IsInternal r s)
      ⊎ ((name ≢ "") × (volume_id ≢ "") × OfNamed r s)

  take_or_reuse-IsNew :
      (s : C.State) → IsNew (take_or_reuse C d.cloud_credentials name volume_id none s) s
  unfolding take_or_reuse build_snapshot_response attempt
  take_or_reuse-IsNew s =
      queried (get_volume C d.cloud_credentials volume_id s).0
        (get_volume C d.cloud_credentials volume_id s).1 refl
    where
      created :
          (vol : Volume) (s₁ : C.State) (r : Result Snapshot) (s₂ : C.State)
          → get_volume C d.cloud_credentials volume_id s ≡ (ok vol, s₁)
          → create_snapshot_completed C d.cloud_credentials name volume_id s₁ ≡ (r, s₂)
          → IsNew (take_or_reuse C d.cloud_credentials name volume_id none s) s
      created vol s₁ (ok snap) s₂ p q = inr (vol, s₁, p, inr (snap, s₂, q, rw (p, q) refl))
      created vol s₁ (err e) s₂ p q = inr (vol, s₁, p, inl (e, s₂, q, (text e, rw (p, q) refl)))

      queried :
          (r : Result Volume) (s₁ : C.State)
          → get_volume C d.cloud_credentials volume_id s ≡ (r, s₁)
          → IsNew (take_or_reuse C d.cloud_credentials name volume_id none s) s
      queried (err e) s₁ p = inl (e, s₁, p, rw p refl)
      queried (ok vol) s₁ p =
          created vol s₁ (create_snapshot_completed C d.cloud_credentials name volume_id s₁).0
            (create_snapshot_completed C d.cloud_credentials name volume_id s₁).1 p refl

  same_name-OfListed :
      (list : List Snapshot) (s : C.State)
      → OfListed list
          ((map_error (wrapping internal) (same_name volume_id list)
              >>= take_or_reuse C d.cloud_credentials name volume_id)
            s)
          s
  unfolding same_name take_or_reuse build_snapshot_response attempt
  same_name-OfListed [] s = take_or_reuse-IsNew s
  same_name-OfListed (snap ∷ []) s = elim (Bool-cases (snap.volume_id == volume_id)) [
    | inl same ↦ inl ((eq_iff snap.volume_id volume_id).0 same, rw same refl)
    | inr other ↦
        inr (differ snap.volume_id volume_id other, (text (refuse already_exists), rw other refl))
  ]
  same_name-OfListed (snap ∷ other ∷ rest) s = (_, refl)

  take_snapshot-OfNamed :
      (s : C.State)
      → (name == "") ≡ false
      → (volume_id == "") ≡ false
      → OfNamed (take_snapshot C d name volume_id s) s
  unfolding take_snapshot create_snapshot_validation check_duplicate_snapshot_name attempt
  take_snapshot-OfNamed s named id =
      listed (list_snapshots C d.cloud_credentials opts s).0
        (list_snapshots C d.cloud_credentials opts s).1 refl
    where
      listed :
          (r : Result PagedList) (s₁ : C.State)
          → list_snapshots C d.cloud_credentials opts s ≡ (r, s₁)
          → OfNamed (take_snapshot C d name volume_id s) s
      listed (err e) s₁ p = inl (e, s₁, p, (text e, rw (named, id, p) refl))
      listed (ok page) s₁ p =
          inr (page, s₁, p, rw (named, id, p) (same_name-OfListed page.snapshots s₁))

  take_snapshot-OfRequest : (s : C.State) → Outcome (take_snapshot C d name volume_id s) s
  unfolding take_snapshot create_snapshot_validation attempt
  take_snapshot-OfRequest s = elim (Bool-cases (volume_id == "")) [
    | inl no_id ↦
        inl (inr ((eq_iff volume_id "").0 no_id), (text (refuse invalid_argument), rw no_id refl))
    | inr id ↦ elim (Bool-cases (name == "")) [
      | inl no_name ↦ inl (
        inl ((eq_iff name "").0 no_name),
        (text (refuse invalid_argument), rw (id, no_name) refl),
      )
      | inr named ↦
          inr (differ name "" named, differ volume_id "" id, take_snapshot-OfNamed s named id)
    ]
  ]

  -- CreateSnapshot fails with NotFound or Internal alone, whatever the cloud answers. A request without a name
  -- or without a volume is answered by Internal, and so is one where the list of the snapshots of the name
  -- fails, where that list has more than one, and where its only snapshot is of another volume: none of these does
  -- more than that query. Where its only snapshot is of the volume, the answer is that snapshot. Where the
  -- list is empty, the volume is queried, whose error is returned, and the snapshot is created, whose error
  -- is answered by Internal; the answer is the created one.
  pub take_snapshot-Outcome :
      (s : C.State)
      → Raises (OneOf (not_found ∷ internal ∷ [])) (take_snapshot C d name volume_id)
        × Outcome (take_snapshot C d name volume_id s) s
  take_snapshot-Outcome s = (snapshot_codes C d name volume_id, take_snapshot-OfRequest s)

-- ===== src/Obs/Services/Deletion.antt =====
-- DeleteObjects of pkg/obs/services/objects.go: how its loop ends.
use huaweicloud_csi_driver.Prelude.{
  ℕ, zero, suc, ◌*◌, ◌≤◌, ◌≡◌, refl, ap, true, String, List, [], ◌∷◌, length, take, drop,
  length-drop, eqb, pos, arith,
}
use huaweicloud_csi_driver.Status.{Result, ok}
use huaweicloud_csi_driver.Effect.{attempt}
use huaweicloud_csi_driver.Config.{CloudCredentials}
use huaweicloud_csi_driver.Obs.Sdk.{ObsCloud, ObsClient}
use huaweicloud_csi_driver.Obs.Services.Client.{get_obs_client, obs_endpoint}
use huaweicloud_csi_driver.Obs.Services.Objects.{
  list_objects, delete_listed, delete_rounds, delete_objects,
}

-- Clients are made without an effect.
pub record Connects (C : ObsCloud) : Type 0 where
  pub client : String → ObsClient
  pub made : (endpoint : String) (s : C.State) → C.obs_new endpoint s ≡ (ok (client endpoint), s)
  pub logged : (s : C.State) → C.init_log s ≡ (ok tt, s)

pub get_obs_client_lem :
    (C : ObsCloud) (c : CloudCredentials) (open_cloud : Connects C) (s : C.State)
    → get_obs_client C c s ≡ (ok (open_cloud.client (obs_endpoint c)), s)
unfolding get_obs_client attempt
get_obs_client_lem C c open_cloud s =
    rw (open_cloud.made (obs_endpoint c) s, open_cloud.logged s) refl

-- A bucket that nobody else writes to: a listing gives its first objects, and objects that were listed are
-- deleted when that is asked for.
pub record ServesObjects (C : ObsCloud) (bucket : String) : Type 0 where
  pub objects : C.State → List String
  pub listed :
      (client : ObsClient) (n : ℕ) (s : C.State)
      → C.list_objects client bucket (pos n) s ≡ (ok (take n (objects s)), s)
  pub deleted :
      (client : ObsClient) (n : ℕ) (s : C.State)
      → (s' : C.State) × (C.delete_objects client bucket (take n (objects s)) s
          ≡ (ok (record { deleteds = take n (objects s); errors = [] }), s'))
        × (objects s' ≡ drop n (objects s))

nil_of_take : (n : ℕ) (xs : List String) → [] ≡ take (suc n) xs → xs ≡ []
nil_of_take n [] h = refl
nil_of_take n (x ∷ xs) h = cc

short_of_take : (n : ℕ) (x : String) (xs ys : List String) → x ∷ xs ≡ take n ys → length ys ≤ 0 → ⊥
short_of_take zero x xs ys h le = cc
short_of_take (suc n) x xs [] h le = cc
short_of_take (suc n) x xs (y ∷ ys) h le = omega arith

eqb_refl : (n : ℕ) → eqb n n ≡ true
eqb_refl n = ground arith

module _ (C : ObsCloud) (c : CloudCredentials) (bucket : String) (open_cloud : Connects C)
    (served : ServesObjects C bucket) where
  list_objects_lem :
      (n : ℕ) (s : C.State)
      → list_objects C c bucket (pos n) s ≡ (ok (take n (served.objects s)), s)
  unfolding list_objects attempt
  list_objects_lem n s = rw (get_obs_client_lem C c open_cloud s, served.listed) refl

  -- Nothing is left in the state `s'` that a call has ended in.
  abbrev pub Emptied : Result (Unit {0}) × C.State → Type 0
  Emptied q = (s' : C.State) × (q ≡ (ok tt, s')) × (served.objects s' ≡ [])

  delete_listed-Emptied :
      (m : ℕ) (client : ObsClient) (s : C.State) (keys : List String)
      → keys ≡ take 1000 (served.objects s)
      → length (served.objects s) ≤ m * 1000
      → Emptied (delete_listed C c client bucket keys (delete_rounds C c m client bucket) s)
  unfolding delete_listed delete_rounds attempt
  delete_listed-Emptied m client s [] all enough = (s, refl, nil_of_take 999 (served.objects s) all)
  delete_listed-Emptied zero client s (key ∷ keys) all enough =
      absurd (short_of_take 1000 key keys (served.objects s) all enough)
  delete_listed-Emptied (suc m) client s (key ∷ keys) all enough =
      let (s₁, done, left) = served.deleted client 1000 s in
      let fewer : length (served.objects s₁) ≤ m * 1000 =
        omega (arith, ap (length {0}) left, length-drop 1000 (served.objects s)) in
      let (s', ends, empty) =
        delete_listed-Emptied m client s₁ (take 1000 (served.objects s₁)) refl fewer in
      let done' : C.delete_objects client bucket (key ∷ keys) s
          ≡ (ok (record { deleteds = key ∷ keys; errors = [] }), s₁) =
        rw all done in
      (s', rw (done', eqb_refl (length (key ∷ keys)), list_objects_lem 1000 s₁) ends, empty)

  -- DeleteObjects ends, however many objects there are: on a bucket that nobody else writes to, a round for
  -- each thousand of objects and a last one are enough for it to return without an error, and no object is
  -- left.
  pub delete_objects-Emptied :
      (m : ℕ) (s : C.State)
      → length (served.objects s) ≤ m * 1000
      → Emptied (delete_objects C c (suc m) bucket s)
  unfolding delete_objects delete_rounds attempt
  delete_objects-Emptied m s enough =
      let (s', ends, empty) =
        delete_listed-Emptied m (open_cloud.client (obs_endpoint c)) s
          (take 1000 (served.objects s)) refl enough in
      (s', rw (get_obs_client_lem C c open_cloud s, list_objects_lem 1000 s) ends, empty)

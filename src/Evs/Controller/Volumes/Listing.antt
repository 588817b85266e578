-- ===== src/Evs/Controller/Volumes/Listing.antt =====
-- The pages of ListVolumes of pkg/evs/controllerserver.go.
use huaweicloud_csi_driver.Prelude.{
  ℕ, ◌+◌, ◌≡◌, refl, ap, String, List, ◌∷◌, ◌++◌, length, replicate, map, drop, take, zero,
  length-append, length-map, suc,
}
use huaweicloud_csi_driver.Evs.Sdk.{Attachment, Volume}
use huaweicloud_csi_driver.Evs.Controller.Volumes.{volume_entry}

length-replicate : {A : Type 0} (n : ℕ) (a : A) → length (replicate n a) ≡ n
length-replicate zero a = refl
length-replicate (suc n) a = ap suc (length-replicate n a)

take-replicate :
    {A : Type 0} (n : ℕ) (a : A) (l : List A) → take n (replicate n a ++ l) ≡ replicate n a
take-replicate zero a l = refl
take-replicate (suc n) a l = ap (λ t. a ∷ t) (take-replicate n a l)

drop-replicate : {A : Type 0} (n : ℕ) (a : A) (l : List A) → drop n (replicate n a ++ l) ≡ l
drop-replicate zero a l = refl
drop-replicate (suc n) a l = drop-replicate n a l

-- An entry of ListVolumes names twice as many nodes as the volume has attachments: first an empty id
-- for each attachment, then the servers.
pub volume_entry-doubled :
    (vol : Volume)
    → let ids = (volume_entry vol).published_node_ids in
      let n = length vol.attachments in
      (length ids ≡ n + n)
      × (take n ids ≡ replicate n "")
      × (drop n ids ≡ map (λ attachment. attachment.server_id) vol.attachments)
unfolding volume_entry
volume_entry-doubled vol =
    let n = length vol.attachments in
    (
      rw
          (
            length-append (replicate n "")
                (map (λ attachment. attachment.server_id) vol.attachments),
            length-replicate {A = String} n "",
            length-map (λ (attachment : Attachment). attachment.server_id) vol.attachments,
          )
          refl,
      take-replicate n "" _,
      drop-replicate n "" _,
    )

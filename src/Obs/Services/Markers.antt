-- ===== src/Obs/Services/Markers.antt =====
-- The markers of ListBuckets (pkg/obs/services/buckets.go): where a page begins, and the name that ends it.
use huaweicloud_csi_driver.Prelude.{
  ℕ, zero, suc, ◌+◌, ◌<◌, ◌≡◌, refl, ap, ◌∙◌, ◌==◌, eq_iff, String, false, some, List, [], ◌∷◌, map,
  length, last?, take, drop, All, arith,
}
use huaweicloud_csi_driver.Obs.Services.Buckets.{Bucket, marker_index, page_start}

-- No two buckets have one name, and none the empty one.
abbrev pub Distinct : List String → Type 0
Distinct [] = Unit
Distinct (name ∷ rest) =
    ((name == "") ≡ false) × All (λ (other : String). (other == name) ≡ false) rest × Distinct rest

abbrev pub nth : List String → ℕ → String
nth [] i = ""
nth (name ∷ rest) zero = name
nth (name ∷ rest) (suc i) = nth rest i

nth-All :
    (P : String → Type 0) (names : List String) (i : ℕ)
    → i < length names
    → All P names
    → P (nth names i)
nth-All P [] i h all = absurd (omega arith)
nth-All P (name ∷ rest) zero h all = all.0
nth-All P (name ∷ rest) (suc i) h all = nth-All P rest i (omega arith) all.1

pub nth_nonempty :
    (names : List String) (i : ℕ) → i < length names → Distinct names → (nth names i == "") ≡ false
nth_nonempty [] i h distinct = absurd (omega arith)
nth_nonempty (name ∷ rest) zero h distinct = distinct.0
nth_nonempty (name ∷ rest) (suc i) h distinct = nth_nonempty rest i (omega arith) distinct.2

marker_index-nth :
    (names : List String) (i : ℕ)
    → i < length names
    → Distinct names
    → marker_index (nth names i) names ≡ i
unfolding marker_index
marker_index-nth [] i h distinct = absurd (omega arith)
marker_index-nth (name ∷ rest) zero h distinct = rw ((eq_iff name name).1 refl) refl
marker_index-nth (name ∷ rest) (suc i) h distinct =
    rw (nth-All _ rest i (omega arith) distinct.1)
      (ap suc (marker_index-nth rest i (omega arith) distinct.2))

pub page_start-nth :
    (names : List String) (i : ℕ)
    → i < length names
    → Distinct names
    → page_start (nth names i) names ≡ suc i
unfolding page_start
page_start-nth names i h distinct =
    rw (nth_nonempty names i h distinct) (ap suc (marker_index-nth names i h distinct))

pub last?-take :
    (names : List String) (m : ℕ)
    → m < length names
    → last? (take (suc m) names) ≡ some (nth names m)
last?-take [] m h = absurd (omega arith)
last?-take (name ∷ rest) zero h = refl
last?-take (name ∷ []) (suc m) h = absurd (omega arith)
last?-take (name ∷ other ∷ rest) (suc m) h = last?-take (other ∷ rest) m (omega arith)

pub nth-drop : (names : List String) (k m : ℕ) → nth (drop k names) m ≡ nth names (k + m)
nth-drop names zero m = ap (nth names) {x = m} {y = 0 + m} (omega arith)
nth-drop [] (suc k) m = refl
nth-drop (name ∷ rest) (suc k) m =
    nth-drop rest k m ∙ ap (nth (name ∷ rest)) {x = suc (k + m)} {y = suc k + m} (omega arith)

pub last?-map :
    (f : String → Bucket) (names : List String) (name : String)
    → last? names ≡ some name
    → last? (map f names) ≡ some (f name)
last?-map f [] name h = cc
last?-map f (x ∷ []) name h = ap some (ap f (cc h))
last?-map f (x ∷ y ∷ rest) name h = last?-map f (y ∷ rest) name h

-- ===== src/Utils/Sha256.antt =====
-- Sha256 of pkg/utils/sha256.go: the digest of a map of texts. The hash, with its digest in hexadecimal digits
-- (crypto/sha256 and encoding/hex), is a parameter. A text that is hashed or encrypted is its bytes.
pub mod Order
use Prim.Native.Char.{Char, code}
use huaweicloud_csi_driver.Prelude.{
  ◌≡◌, refl, ℕ, String, ◌<>◌, Bool, true, false, List, [], ◌∷◌, map, ltb, eqb, if◌then◌else◌,
}
use huaweicloud_csi_driver.Prelude.Dict.{Dict, get}
use huaweicloud_csi_driver.Utils.Decimal.{codes}

-- The bytes of a Go string.
abbrev pub Bytes : Type 0
Bytes = List ℕ

-- The order of sort.Strings
unfoldable pub text_leb : String → String → Bool
text_leb String.[] t = true
text_leb (String.◌∷◌ c s) String.[] = false
text_leb (String.◌∷◌ c s) (String.◌∷◌ d t) =
    let rest = text_leb s t in if eqb (code c) (code d) then rest else ltb (code c) (code d)

unfoldable pub insert_key : String → List String → List String
insert_key key [] = key ∷ []
insert_key key (k ∷ keys) =
    let later = insert_key key keys in if text_leb key k then key ∷ k ∷ keys else k ∷ later

-- sort.Strings
unfoldable pub sort_strings : List String → List String
unfolding insert_key
sort_strings [] = []
sort_strings (key ∷ keys) = insert_key key (sort_strings keys)

abbrev pub keys_of : Dict String → List String
keys_of values = map (λ (entry : String × String). entry.0) values

-- The elements `key=value`, in the order of the keys that are given.
abbrev pub elements_of : Dict String → List String → List String
elements_of values [] = []
elements_of values (key ∷ keys) = (key <> ("=" <> get values key)) ∷ elements_of values keys

-- strings.Join with "&"
unfoldable pub join_and : List String → String
join_and [] = ""
join_and (element ∷ []) = element
join_and (element ∷ next ∷ rest) = element <> ("&" <> join_and (next ∷ rest))

-- Sha256
unfoldable pub sha256 : (Bytes → Bytes) → Dict String → Bytes
unfolding sort_strings join_and
sha256 hash values = hash (codes (join_and (elements_of values (sort_strings (keys_of values)))))

sorted :
    sort_strings ("region" ∷ "cloud" ∷ "credential" ∷ []) ≡ "cloud" ∷ "credential" ∷ "region" ∷ []
unfolding sort_strings text_leb
sorted = refl

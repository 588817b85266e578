-- ===== src/Utils/Text.antt =====
-- What the code uses of Go's strings and filepath packages, on texts of ASCII characters.
use Prim.Native.Char.{Char, code}
use huaweicloud_csi_driver.Prelude.{
  ◌≡◌, refl, ℕ, zero, suc, String, ◌==◌, Bool, ◌&&◌, ◌||◌, Option, none, some, List, [], ◌∷◌, leb,
  eqb, if◌then◌else◌,
}

-- s[:n], which panics where the text is shorter
unfoldable pub slice_to : ℕ → String → Option String
slice_to zero s = some ""
slice_to (suc n) String.[] = none
slice_to (suc n) (String.◌∷◌ c s) = elim (slice_to n s) [
  | none ↦ none
  | some front ↦ some (String.◌∷◌ c front)
]

-- strings.Replace(s, "-", "", -1)
unfoldable pub without_dashes : String → String
without_dashes String.[] = ""
without_dashes (String.◌∷◌ c s) =
    let rest = without_dashes s in if eqb (code c) b'-' then rest else String.◌∷◌ c rest

abbrev is_space : Char → Bool
is_space c = eqb (code c) b' ' || leb 9 (code c) && leb (code c) 13

unfoldable pub trim_left : String → String
trim_left String.[] = ""
trim_left (String.◌∷◌ c s) = let rest = trim_left s in if is_space c then rest else String.◌∷◌ c s

unfoldable pub trim_right : String → String
trim_right String.[] = ""
trim_right (String.◌∷◌ c s) =
    let rest = trim_right s in if is_space c && rest == "" then "" else String.◌∷◌ c rest

-- strings.TrimSpace
unfoldable pub trim_space : String → String
unfolding trim_left trim_right
trim_space s = trim_right (trim_left s)

abbrev pub put_before : Char → Option String → Option String
put_before c none = none
put_before c (some s) = some (String.◌∷◌ c s)

-- strings.TrimSuffix, where strings.HasSuffix is true
unfoldable pub before_suffix : String → String → Option String
before_suffix suffix String.[] = if suffix == "" then some "" else none
before_suffix suffix (String.◌∷◌ c s) =
    let rest = before_suffix suffix s in
    if String.◌∷◌ c s == suffix then some "" else put_before c rest

-- What is behind a prefix, where strings.HasPrefix is true
unfoldable pub strip_prefix : String → String → Option String
strip_prefix String.[] s = some s
strip_prefix (String.◌∷◌ p prefix) String.[] = none
strip_prefix (String.◌∷◌ p prefix) (String.◌∷◌ c s) =
    let rest = strip_prefix prefix s in if eqb (code p) (code c) then rest else none

abbrev put_front : Char → Option (String × String) → Option (String × String)
put_front c none = none
put_front c (some (front, back)) = some (String.◌∷◌ c front, back)

-- strings.SplitN(s, sep, 2), where the separator is there
unfoldable pub cut : String → String → Option (String × String)
unfolding strip_prefix
cut sep String.[] = elim (strip_prefix sep "") [ none ↦ none | some back ↦ some ("", back) ]
cut sep (String.◌∷◌ c s) =
    let later = put_front c (cut sep s) in
    elim (strip_prefix sep (String.◌∷◌ c s)) [ none ↦ later | some back ↦ some ("", back) ]

abbrev put_first : Char → List String → List String
put_first c [] = String.◌∷◌ c "" ∷ []
put_first c (part ∷ parts) = String.◌∷◌ c part ∷ parts

-- strings.Split(s, ",")
unfoldable pub split_commas : String → List String
split_commas String.[] = "" ∷ []
split_commas (String.◌∷◌ c s) =
    let parts = split_commas s in if eqb (code c) b',' then "" ∷ parts else put_first c parts

-- filepath.Dir of a clean path: what is in front of its last slash
abbrev in_front : Char → String → Option String → Option String
in_front c s none = if eqb (code c) b'/' then some "" else none
in_front c s (some front) = some (String.◌∷◌ c front)

unfoldable pub before_slash : String → Option String
before_slash String.[] = none
before_slash (String.◌∷◌ c s) = in_front c s (before_slash s)

unfoldable pub dir : String → String
unfolding before_slash
dir s = elim (before_slash s) [ none ↦ "." | some front ↦ if front == "" then "/" else front ]

dir_of_target : dir "/var/lib/pods/target" ≡ "/var/lib/pods"
unfolding dir
dir_of_target = refl

gi_suffix : before_suffix "Gi" "20Gi" ≡ some "20"
unfolding before_suffix
gi_suffix = refl

trimmed : trim_space " /dev/vdb\n" ≡ "/dev/vdb"
unfolding trim_space
trimmed = refl

parts : split_commas "metadataService, configDrive" ≡ "metadataService" ∷ " configDrive" ∷ []
unfolding split_commas
parts = refl

-- ===== src/Utils/Endpoint.antt =====
-- ParseEndpoint of pkg/utils/utils.go, by which the servers find the address that they listen on.
use Prim.Native.Char.{Char, code}
use text.Mathlib.TextLemmas.{nil-append, cons-append}
use huaweicloud_csi_driver.Prelude.{
  ◌∙◌, ℕ, zero, suc, ◌-◌, ◌≡◌, refl, ap, String, ◌<>◌, Bool, true, false, ◌&&◌, ◌||◌, Option, none,
  some, leb, if◌then◌else◌,
}
use huaweicloud_csi_driver.Status.{Result, ok, err, plain}
use huaweicloud_csi_driver.Utils.Text.{strip_prefix, cut}

-- The letter at a place, or another character where there is none.
unfoldable letter_at : String → ℕ → Char → Char
letter_at String.[] n other = other
letter_at (String.◌∷◌ c s) zero other = c
letter_at (String.◌∷◌ c s) (suc n) other = letter_at s n other

unfoldable lower_char : Char → Char
unfolding letter_at
lower_char c =
    if leb b'A' (code c) && leb (code c) b'Z'
    then letter_at "abcdefghijklmnopqrstuvwxyz" (code c - 65) c
    else c

-- strings.ToLower
unfoldable pub to_lower : String → String
unfolding lower_char
to_lower String.[] = String.[]
to_lower (String.◌∷◌ c s) = String.◌∷◌ (lower_char c) (to_lower s)

abbrev has_prefix : Option String → Bool
has_prefix none = false
has_prefix (some rest) = true

abbrev with_address : String → String → String → Result (String × String)
with_address ep scheme String.[] = err (plain ("Invalid endpoint: " <> ep))
with_address ep scheme (String.◌∷◌ c address) = ok (scheme, String.◌∷◌ c address)

-- The parts, unless there is nothing behind the separator.
abbrev parts_or_error : String → Option (String × String) → Result (String × String)
parts_or_error ep none = err (plain ("Invalid endpoint: " <> ep))
parts_or_error ep (some (scheme, address)) = with_address ep scheme address

unfoldable pub parse_lower : String → Result (String × String)
unfolding strip_prefix cut
parse_lower ep =
    if has_prefix (strip_prefix "unix://" ep) || has_prefix (strip_prefix "tcp://" ep)
    then parts_or_error ep (cut "://" ep)
    else err (plain ("Invalid endpoint: " <> ep))

-- ParseEndpoint
unfoldable pub parse_endpoint : String → Result (String × String)
unfolding parse_lower to_lower
parse_endpoint ep = parse_lower (to_lower ep)

abbrev prepend : String → String → String
prepend String.[] s = s
prepend (String.◌∷◌ c prefix) s = String.◌∷◌ c (prepend prefix s)

append-eq-prepend : (prefix s : String) → prefix <> s ≡ prepend prefix s
append-eq-prepend String.[] s = nil-append s
append-eq-prepend (String.◌∷◌ c prefix) s =
    cons-append c prefix s ∙ ap (String.◌∷◌ c) (append-eq-prepend prefix s)

-- An endpoint that is printed from a scheme, `unix` or `tcp`, and an address is read back as that scheme and
-- the address in lower case: a socket whose path has capitals is read as another path.
pub parse_endpoint-printed :
    (c : Char) (address : String)
    → (parse_endpoint ("unix://" <> String.◌∷◌ c address)
        ≡ ok ("unix", to_lower (String.◌∷◌ c address)))
      × (parse_endpoint ("tcp://" <> String.◌∷◌ c address)
          ≡ ok ("tcp", to_lower (String.◌∷◌ c address)))
unfolding parse_endpoint
parse_endpoint-printed c address = (
  rw (append-eq-prepend "unix://" (String.◌∷◌ c address)) refl,
  rw (append-eq-prepend "tcp://" (String.◌∷◌ c address)) refl,
)

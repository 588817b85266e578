-- ===== src/Utils/Tests.antt =====
-- Tests of the sizes and of their theorems.
use huaweicloud_csi_driver.Prelude.{ℕ, ◌*◌, ◌≤◌, ◌≡◌, refl, arith, some, pos, negsuc}
use huaweicloud_csi_driver.Status.{ok}
use huaweicloud_csi_driver.Utils.{round_up_size, gb_byte_size}
use huaweicloud_csi_driver.Utils.Rounding.{round_up_size-least}
use huaweicloud_csi_driver.Utils.Decimal.{atoi, itoa}
use huaweicloud_csi_driver.Prelude.{String, ◌<>◌, List, [], ◌∷◌, inl, inr, ◌≢◌}
use huaweicloud_csi_driver.Prelude.Dict.{Dict}
use huaweicloud_csi_driver.Utils.Logs.{
  Fields, no_field, field, object, string, JsonLibrary, format_json, format_headers,
}
use huaweicloud_csi_driver.Utils.Logs.Secrets.{
  DifferIn, OnObjects, format_json-hides, SameButPassword, SameButSecrets, format_headers-hides,
}
use huaweicloud_csi_driver.Utils.RoundTrip.{atoi-itoa}
use huaweicloud_csi_driver.Utils.Endpoint.{to_lower, parse_endpoint, parse_endpoint-printed}

-- As in the tests of RoundUpSize: 1500 MiB are 2 GiB.
rounds_up : round_up_size (pos 1572864000) gb_byte_size ≡ pos 2
unfolding round_up_size
rounds_up = refl

round_up_size-least_example :
    (units : ℕ) × (round_up_size (pos 1572864000) gb_byte_size ≡ pos units)
    × (1572864000 ≤ units * gb_byte_size)
    × ((fewer : ℕ) → 1572864000 ≤ fewer * gb_byte_size → units ≤ fewer)
round_up_size-least_example = round_up_size-least 1572864000

reads_what_it_prints : atoi (itoa (negsuc 41)) ≡ some (negsuc 41)
reads_what_it_prints = atoi-itoa (negsuc 41) (omega arith, omega arith)

parse_endpoint-printed_example :
    (parse_endpoint "unix:///csi/csi.sock" ≡ ok ("unix", to_lower "/csi/csi.sock"))
    × (parse_endpoint "tcp:///csi/csi.sock" ≡ ok ("tcp", to_lower "/csi/csi.sock"))
parse_endpoint-printed_example = parse_endpoint-printed "/" "csi/csi.sock"

-- A document is printed as the names of its fields.
abbrev names : Fields → String
names no_field = ""
names (field k v fields) = k <> names fields

-- A request of the token of a user with a password.
abbrev user_request : String → Fields
user_request password =
    field "auth"
      (object (
        field "identity"
          (object (
            field "password"
              (object (
                field "user"
                  (object
                    (field "name" (string "admin") (field "password" (string password) no_field)))
                  no_field))
              no_field))
          no_field))
      no_field

-- A text is read as a request with it as the password.
abbrev small_json : JsonLibrary
small_json = record {
  unmarshal = λ raw. ok (user_request raw);
  marshal_indent = λ document. ok (names document);
}

-- Objects of one field, whose values differ.
in_one_field :
    (R : Fields → Fields → Type 0) (key : String) (f g : Fields)
    → R f g
    → DifferIn (OnObjects R) key (field key (object f) no_field) (field key (object g) no_field)
in_one_field R key f g related = (refl, inl (refl, inr (f, g, refl, refl, related), refl))

other_name : (name : String) → name ≡ "name" → name ≢ "password"
other_name name is_name e = cc (is_name, e)

differ_in_password : SameButPassword (user_request "secret") (user_request "another")
differ_in_password = in_one_field _ "auth" _ _ (
    in_one_field _ "identity" _ _ (
      in_one_field _ "password" _ _ (
        in_one_field _ "user" _ _
          (refl, inr (other_name "name" refl, refl, (refl, inl (refl, tt, refl)))))))

format_json-hides_example : format_json small_json "secret" ≡ format_json small_json "another"
format_json-hides_example =
    format_json-hides small_json "secret" "another" (user_request "secret") (user_request "another")
      (λ document. (names document, refl)) refl refl differ_in_password

abbrev headers : String → Dict (List String)
headers token = ("Accept", "*/*" ∷ []) ∷ ("X-Auth-Token", token ∷ []) ∷ []

differ_in_token : SameButSecrets (headers "MIIF") (headers "MIIG")
unfolding to_lower
differ_in_token = (refl, refl, inl refl, (refl, refl, inr (inl refl), tt))

format_headers-hides_example :
    format_headers (headers "MIIF") "; " ≡ format_headers (headers "MIIG") "; "
format_headers-hides_example =
    format_headers-hides (headers "MIIF") (headers "MIIG") "; " differ_in_token

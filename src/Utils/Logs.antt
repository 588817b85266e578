-- ===== src/Utils/Logs.antt =====
-- What pkg/utils/logroundtripper.go writes of a request and of a response into the log. JSON texts are read and
-- written by a parameter.
pub mod Secrets
use huaweicloud_csi_driver.Prelude.{
  String, ◌<>◌, ◌==◌, Bool, true, false, ◌||◌, Option, none, some, List, [], ◌∷◌, ◌++◌,
  if◌then◌else◌,
}
use huaweicloud_csi_driver.Prelude.Dict.{Dict}
use huaweicloud_csi_driver.Status.{Error, Result, ok, err}
use huaweicloud_csi_driver.Utils.Endpoint.{to_lower}
use huaweicloud_csi_driver.Utils.Sha256.{sort_strings}

-- A value that encoding/json reads into an interface{}: an object is a map from its fields to values.
mutual
  pub data Json : Type 0 where
    null : Json
    boolean : Bool → Json
    -- a number, by its digits
    number : String → Json
    string : String → Json
    array : Elements → Json
    object : Fields → Json

  pub data Elements : Type 0 where
    no_element : Elements
    element : Json → Elements → Elements

  pub data Fields : Type 0 where
    no_field : Fields
    field : String → Json → Fields → Fields

-- json.Unmarshal into a map, and json.MarshalIndent of one
pub record JsonLibrary : Type 0 where
  pub unmarshal : String → Result Fields
  pub marshal_indent : Fields → Result String

-- m[key] = value
unfoldable pub put : String → Json → Fields → Fields
put key value no_field = field key value no_field
put key value (field k v fields) =
    let rest = put key value fields in if k == key then field k value fields else field k v rest

-- if v, ok := m[key].(map[string]interface{}); ok { change v }
abbrev pub on_object : (Fields → Fields) → Json → Json
on_object change (object fields) = object (change fields)
on_object change v = v

unfoldable pub within : String → (Fields → Fields) → Fields → Fields
within key change no_field = no_field
within key change (field k v fields) =
    let rest = within key change fields in
    if k == key then field k (on_object change v) fields else field k v rest

-- The password of an authentication request is replaced.
unfoldable pub with_password : String → Fields → Fields
unfolding put within
with_password password document =
    within "auth"
      (within "identity" (within "password" (within "user" (put "password" (string password)))))
      document

unfoldable pub has_field : String → Fields → Bool
has_field key no_field = false
has_field key (field k v fields) = let rest = has_field key fields in k == key || rest

abbrev object_has : String → Json → Bool
object_has key (object fields) = has_field key fields
object_has key v = false

-- data["token"] is a map with a catalog.
unfoldable pub has_catalog : Fields → Bool
unfolding has_field
has_catalog no_field = false
has_catalog (field k v fields) =
    let rest = has_catalog fields in if k == "token" then object_has "catalog" v else rest

abbrev or_raw : String → Result String → String
or_raw raw (ok pretty) = pretty
or_raw raw (err e) = raw

-- formatJSON of a document
unfoldable pub format_fields : JsonLibrary → String → Fields → String
unfolding has_catalog
format_fields L raw document =
    if has_catalog document then "" else or_raw raw (L.marshal_indent document)

abbrev or_unreadable : JsonLibrary → String → Result Fields → String
or_unreadable L raw (err e) = raw
or_unreadable L raw (ok document) = format_fields L raw (with_password "***" document)

-- formatJSON
unfoldable pub format_json : JsonLibrary → String → String
unfolding with_password
format_json L raw = or_unreadable L raw (L.unmarshal raw)

abbrev pub redact_headers_list : List String
redact_headers_list =
    "x-auth-token" ∷ "x-auth-key" ∷ "x-service-token" ∷ "x-storage-token"
    ∷ "x-account-meta-temp-url-key" ∷ "x-account-meta-temp-url-key-2"
    ∷ "x-container-meta-temp-url-key" ∷ "x-container-meta-temp-url-key-2" ∷ "set-cookie"
    ∷ "x-subject-token" ∷ "authorization" ∷ []

-- isSliceContainsStr, for the text in lower case
unfoldable pub contains_lower : List String → String → Bool
unfolding to_lower
contains_lower [] str = false
contains_lower (s ∷ sl) str = let rest = contains_lower sl str in to_lower s == str || rest

unfoldable pub is_redacted : String → Bool
unfolding contains_lower to_lower
is_redacted name = contains_lower redact_headers_list (to_lower name)

-- The loop over the values of a header.
unfoldable pub header_lines : String → List String → List String
unfolding is_redacted
header_lines name [] = []
header_lines name (v ∷ values) =
    (if is_redacted name then name <> ": ***" else name <> (": " <> v)) ∷ header_lines name values

-- RedactHeaders
unfoldable pub redact_headers : Dict (List String) → List String
unfolding header_lines
redact_headers [] = []
redact_headers ((name, values) ∷ headers) = header_lines name values ++ redact_headers headers

-- strings.Join
unfoldable pub join : String → List String → String
join separator [] = ""
join separator (line ∷ []) = line
join separator (line ∷ next ∷ rest) = line <> (separator <> join separator (next ∷ rest))

-- FormatHeaders
unfoldable pub format_headers : Dict (List String) → String → String
unfolding redact_headers sort_strings join
format_headers headers separator = join separator (sort_strings (redact_headers headers))

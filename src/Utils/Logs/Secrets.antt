-- ===== src/Utils/Logs/Secrets.antt =====
-- What the log of pkg/utils/logroundtripper.go does not tell.
use huaweicloud_csi_driver.Prelude.{
  ◌≡◌, ◌≢◌, ◌⊎◌, refl, sym, ap, inl, inr, String, ◌<>◌, ◌==◌, true, false, Bool-cases, eq_iff, List,
  [], ◌∷◌, length, arith,
}
use huaweicloud_csi_driver.Prelude.Dict.{Dict}
use huaweicloud_csi_driver.Status.{ok}
use huaweicloud_csi_driver.Utils.Endpoint.{to_lower}
use huaweicloud_csi_driver.Utils.Sha256.{sort_strings}
use huaweicloud_csi_driver.Utils.Logs.{
  Json, string, object, Fields, no_field, field, JsonLibrary, put, on_object, within, with_password,
  format_fields, format_json, redact_headers_list, contains_lower, is_redacted, header_lines,
  redact_headers, join, format_headers,
}

-- Two objects that agree but in the values of a key, which a relation ties.
abbrev pub DifferIn : (Json → Json → Type 0) → String → Fields → Fields → Type 0
DifferIn R key no_field no_field = Unit
DifferIn R key no_field (field k' v' g) = ⊥
DifferIn R key (field k v f) no_field = ⊥
DifferIn R key (field k v f) (field k' v' g) =
    (k ≡ k') × (((k ≡ key) × R v v' × (f ≡ g)) ⊎ ((k ≢ key) × (v ≡ v') × DifferIn R key f g))

-- Two values that are the same, or objects that a relation ties.
abbrev pub OnObjects : (Fields → Fields → Type 0) → Json → Json → Type 0
OnObjects R v w = (v ≡ w) ⊎ ((f : Fields) × (g : Fields) × (v ≡ object f) × (w ≡ object g) × R f g)

abbrev pub AnyValues : Json → Json → Type 0
AnyValues v w = Unit

-- Documents that agree but in auth.identity.password.user.password.
abbrev pub SameButPassword : Fields → Fields → Type 0
SameButPassword =
    DifferIn
      (OnObjects (
        DifferIn
          (OnObjects (
            DifferIn (OnObjects (DifferIn (OnObjects (DifferIn AnyValues "password")) "user"))
              "password"))
          "identity"))
      "auth"

same_key : (k key : String) → k ≡ key → (k == key) ≡ true
same_key k key e = (eq_iff k key).1 e

other_key : (k key : String) → k ≢ key → (k == key) ≡ false
other_key k key differ = elim (Bool-cases (k == key)) [
  | inl same ↦ absurd (differ ((eq_iff k key).0 same))
  | inr other ↦ other
]

-- A field that is set hides what it was.
put_same :
    (key : String) (x : Json) (f g : Fields)
    → DifferIn AnyValues key f g
    → put key x f ≡ put key x g
unfolding put
put_same key x no_field no_field differ = refl
put_same key x no_field (field k' v' g) differ = absurd differ
put_same key x (field k v f) no_field differ = absurd differ
put_same key x (field k v f) (field k' v' g) (names, inl (here, _, rest)) =
    rw (sym names, same_key k key here, rest) refl
put_same key x (field k v f) (field k' v' g) (names, inr (differ, values, rest)) =
    rw (sym names, other_key k key differ, values, put_same key x f g rest) refl

on_object_same :
    (R : Fields → Fields → Type 0) (change : Fields → Fields)
    → ((f g : Fields) → R f g → change f ≡ change g)
    → (v w : Json) → OnObjects R v w
    → on_object change v ≡ on_object change w
on_object_same R change hides v w (inl same) = ap (on_object change) same
on_object_same R change hides v w (inr (f, g, is_f, is_g, related)) =
    rw (is_f, is_g) (ap object (hides f g related))

-- A change that hides a difference hides it within a field.
within_same :
    (R : Fields → Fields → Type 0) (key : String) (change : Fields → Fields)
    → ((f g : Fields) → R f g → change f ≡ change g)
    → (f g : Fields) → DifferIn (OnObjects R) key f g
    → within key change f ≡ within key change g
unfolding within
within_same R key change hides no_field no_field differ = refl
within_same R key change hides no_field (field k' v' g) differ = absurd differ
within_same R key change hides (field k v f) no_field differ = absurd differ
within_same R key change hides (field k v f) (field k' v' g) (names, inl (here, values, rest)) =
    let objects = on_object_same R change hides v v' values in
    rw (sym names, same_key k key here, objects, rest) refl
within_same R key change hides (field k v f) (field k' v' g) (names, inr (differ, values, rest)) =
    let others = within_same R key change hides f g rest in
    rw (sym names, other_key k key differ, values, others) refl

with_password_same :
    (password : String) (f g : Fields)
    → SameButPassword f g
    → with_password password f ≡ with_password password g
unfolding with_password
with_password_same password = within_same _ "auth" _ (
    within_same _ "identity" _
      (within_same _ "password" _ (within_same _ "user" _ (put_same "password" (string password)))))

-- The log of a body does not tell the password: two texts that are read as documents which agree in all but the
-- value of auth.identity.password.user.password are logged as the same text, if every document can be written.
pub format_json-hides :
    (L : JsonLibrary) (raw raw' : String) (document document' : Fields)
    → ((d : Fields) → (pretty : String) × (L.marshal_indent d ≡ ok pretty))
    → L.unmarshal raw ≡ ok document
    → L.unmarshal raw' ≡ ok document'
    → SameButPassword document document'
    → format_json L raw ≡ format_json L raw'
unfolding format_json format_fields
format_json-hides L raw raw' document document' writes read read' same =
    let (pretty, written) = writes (with_password "***" document') in
    rw (read, read', with_password_same "***" document document' same, written) refl

-- The names of the headers that are secret: tokens, keys, authorizations and Set-Cookie.
abbrev pub IsSecret : String → Type 0
IsSecret name =
    (name ≡ "x-auth-token")
    ⊎ (name ≡ "x-auth-key")
    ⊎ (name ≡ "x-service-token")
    ⊎ (name ≡ "x-storage-token")
    ⊎ (name ≡ "x-account-meta-temp-url-key")
    ⊎ (name ≡ "x-account-meta-temp-url-key-2")
    ⊎ (name ≡ "x-container-meta-temp-url-key")
    ⊎ (name ≡ "x-container-meta-temp-url-key-2")
    ⊎ (name ≡ "set-cookie")
    ⊎ (name ≡ "x-subject-token")
    ⊎ (name ≡ "authorization")

-- Headers with the same names and numbers of values, and the same values but for those that are secret.
abbrev pub SameButSecrets : Dict (List String) → Dict (List String) → Type 0
SameButSecrets [] [] = Unit
SameButSecrets [] (h ∷ headers') = ⊥
SameButSecrets (h ∷ headers) [] = ⊥
SameButSecrets ((name, values) ∷ headers) ((name', values') ∷ headers') =
    (name ≡ name')
    × (length values ≡ length values')
    × ((values ≡ values') ⊎ IsSecret (to_lower name))
    × SameButSecrets headers headers'

IsSecret-is_redacted : (name : String) → IsSecret (to_lower name) → is_redacted name ≡ true
unfolding is_redacted
IsSecret-is_redacted name secret = listed (to_lower name) secret
  where
    listed : (low : String) → IsSecret low → contains_lower redact_headers_list low ≡ true
    listed low (inl e) = rw e refl
    listed low (inr (inl e)) = rw e refl
    listed low (inr (inr (inl e))) = rw e refl
    listed low (inr (inr (inr (inl e)))) = rw e refl
    listed low (inr (inr (inr (inr (inl e))))) = rw e refl
    listed low (inr (inr (inr (inr (inr (inl e)))))) = rw e refl
    listed low (inr (inr (inr (inr (inr (inr (inl e))))))) = rw e refl
    listed low (inr (inr (inr (inr (inr (inr (inr (inl e)))))))) = rw e refl
    listed low (inr (inr (inr (inr (inr (inr (inr (inr (inl e))))))))) = rw e refl
    listed low (inr (inr (inr (inr (inr (inr (inr (inr (inr (inl e)))))))))) = rw e refl
    listed low (inr (inr (inr (inr (inr (inr (inr (inr (inr (inr e)))))))))) = rw e refl

redacted_lines :
    (name : String) (values values' : List String)
    → is_redacted name ≡ true
    → length values ≡ length values'
    → header_lines name values ≡ header_lines name values'
unfolding header_lines
redacted_lines name [] [] redacted count = refl
redacted_lines name [] (v ∷ values') redacted count = absurd (omega arith)
redacted_lines name (v ∷ values) [] redacted count = absurd (omega arith)
redacted_lines name (v ∷ values) (v' ∷ values') redacted count =
    rw redacted
      (ap (◌∷◌ (name <> ": ***")) (redacted_lines name values values' redacted (omega arith)))

lines_same :
    (name : String) (values values' : List String)
    → length values ≡ length values'
    → (values ≡ values') ⊎ IsSecret (to_lower name)
    → header_lines name values ≡ header_lines name values'
lines_same name values values' count (inl same) = ap (header_lines name) same
lines_same name values values' count (inr secret) =
    redacted_lines name values values' (IsSecret-is_redacted name secret) count

redact_headers-same :
    (headers headers' : Dict (List String))
    → SameButSecrets headers headers'
    → redact_headers headers ≡ redact_headers headers'
unfolding redact_headers
redact_headers-same [] [] same = refl
redact_headers-same [] (h ∷ headers') same = absurd same
redact_headers-same (h ∷ headers) [] same = absurd same
redact_headers-same ((name, values) ∷ headers) ((name', values') ∷ headers')
      (names, count, public, rest) =
    let lines = lines_same name values values' count public in
    let others = redact_headers-same headers headers' rest in rw (sym names, lines, others) refl

-- The log of headers does not tell the secret ones: headers that differ only in the values of X-Auth-Token,
-- X-Auth-Key, X-Service-Token, X-Storage-Token, X-Subject-Token, Authorization, Set-Cookie, or
-- X-Account-Meta-Temp-Url-Key and X-Container-Meta-Temp-Url-Key with or without -2, in any case of the letters,
-- and that have as many values, are logged as the same text.
pub format_headers-hides :
    (headers headers' : Dict (List String)) (separator : String)
    → SameButSecrets headers headers'
    → format_headers headers separator ≡ format_headers headers' separator
unfolding format_headers
format_headers-hides headers headers' separator same =
    ap (λ lines. join separator (sort_strings lines)) (redact_headers-same headers headers' same)

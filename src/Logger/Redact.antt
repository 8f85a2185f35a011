-- ===== src/Logger/Redact.antt =====
-- core/internal/logger/redact.go: the deny-lists, and the redaction of headers and of values.
pub mod Secrecy
pub mod Headers
use id_core.Prelude.{ℕ, Bool, true, false, Option, none, some, List, [], ◌∷◌, map, if◌then◌else◌}
use id_core.Go.Bytes.{Bytes, bytes, bytes_eq}
use id_core.Go.Case.{to_lower}
use id_core.Go.Any.{
  Any, null, bool, number, str, other, nil_map, object, nil_slice, array, Items, nil, cons, Fields,
  end, field,
}

abbrev pub redacted_value : Bytes
redacted_value = bytes "[REDACTED]"

abbrev pub header_keys_to_redact : List Bytes
header_keys_to_redact =
    bytes "Authorization"
    ∷ bytes "Cookie"
    ∷ bytes "Set-Cookie"
    ∷ bytes "Proxy-Authorization"
    ∷ bytes "X-Api-Key"
    ∷ bytes "X-Auth-Token"
    ∷ []

abbrev pub field_keys_to_redact : List Bytes
field_keys_to_redact =
    bytes "password"
    ∷ bytes "current_password"
    ∷ bytes "new_password"
    ∷ bytes "access_token"
    ∷ bytes "refresh_token"
    ∷ bytes "id_token"
    ∷ bytes "code"
    ∷ bytes "code_verifier"
    ∷ bytes "client_secret"
    ∷ bytes "assertion"
    ∷ bytes "client_assertion"
    ∷ bytes "private_key"
    ∷ bytes "secret"
    ∷ bytes "api_key"
    ∷ bytes "jwt"
    ∷ bytes "bearer_token"
    ∷ []

-- The test `_, hit := set[key]`.
unfoldable pub set_contains : List Bytes → Bytes → Bool
unfolding bytes_eq
set_contains [] key = false
set_contains (k ∷ ks) key = if bytes_eq k key then true else set_contains ks key

-- http.Header: the keys with their values.
abbrev pub Header : Type 0
Header = List (Bytes × List Bytes)

module _ (unicode_lower : ℕ → ℕ) where
  unfoldable pub build_lower_set : List Bytes → List Bytes
  unfolding to_lower
  build_lower_set keys = map (to_lower unicode_lower) keys

  unfoldable pub is_header_key_to_redact : Bytes → Bool
  unfolding build_lower_set set_contains
  is_header_key_to_redact key =
      set_contains (build_lower_set header_keys_to_redact) (to_lower unicode_lower key)

  unfoldable pub is_field_key_to_redact : Bytes → Bool
  unfolding build_lower_set set_contains
  is_field_key_to_redact key =
      set_contains (build_lower_set field_keys_to_redact) (to_lower unicode_lower key)

  abbrev redact_values : Bool → List Bytes → List Bytes
  redact_values true values = map (λ _. redacted_value) values
  redact_values false values = values

  abbrev redact_entries : Header → Header
  redact_entries [] = []
  redact_entries ((k, v) ∷ h) = (k, redact_values (is_header_key_to_redact k) v) ∷ redact_entries h

  unfoldable pub redact_headers : Option Header → Option Header
  redact_headers none = none
  redact_headers (some h) = some (redact_entries h)

  unfoldable mutual
    pub redact_value : Any → Any
    redact_value (object fs) = object (redact_fields fs)
    redact_value nil_slice = array nil
    redact_value (array xs) = array (redact_items xs)
    redact_value v = v

    pub redact_items : Items → Items
    redact_items nil = nil
    redact_items (cons x xs) = cons (redact_value x) (redact_items xs)

    pub redact_fields : Fields → Fields
    redact_fields end = end
    redact_fields (field k v fs) =
        field k (if is_field_key_to_redact k then str redacted_value else redact_value v)
          (redact_fields fs)

  unfoldable pub redact_map : Option Fields → Option Fields
  unfolding redact_fields
  redact_map none = none
  redact_map (some fs) = some (redact_fields fs)

-- ===== src/Apperror.antt =====
-- core/internal/apperror: coded errors and the reply that they give.
pub mod Laws
pub mod Store
use id_core.Prelude.{ℕ, Bool, true, false, Option, none, some, List, [], ◌∷◌, ◌++◌}
use id_core.Go.Bytes.{Bytes, bytes}
use id_core.Go.Any.{
  Any, null, bool, number, str, other, nil_map, object, nil_slice, array, Items, nil, cons, Fields,
  end, field,
}
use id_core.Go.Json.{json_string, json_fields, json_object}
use id_core.Go.Http.{Panic}
use id_core.Http.{ResponseWriter}

abbrev pub code_internal_error : Bytes
code_internal_error = bytes "INTERNAL_ERROR"

abbrev pub message_internal_error : Bytes
message_internal_error = bytes "内部エラーが発生しました"

-- `details` is `none` where the Go map is nil; `cause` is the text of the wrapped error.
pub record CodedError : Type 0 where
  pub code : Bytes
  pub message : Bytes
  pub details : Option Fields
  pub cause : Option Bytes

unfoldable pub new : Bytes → Bytes → CodedError
new code message = record { code = code; message = message; details = none; cause = none }

-- A nil slice becomes an empty one, since the copy is made by `make`.
unfoldable mutual
  pub clone_value : Any → Any
  clone_value (object fs) = object (clone_fields fs)
  clone_value nil_slice = array nil
  clone_value (array xs) = array (clone_items xs)
  clone_value v = v

  pub clone_items : Items → Items
  clone_items nil = nil
  clone_items (cons x xs) = cons (clone_value x) (clone_items xs)

  pub clone_fields : Fields → Fields
  clone_fields end = end
  clone_fields (field k v fs) = field k (clone_value v) (clone_fields fs)

unfoldable pub clone_details : Option Fields → Option Fields
unfolding clone_fields
clone_details none = none
clone_details (some fs) = some (clone_fields fs)

unfoldable pub with_details : CodedError → Option Fields → CodedError
unfolding clone_details
with_details e details = record e { details = clone_details details }

unfoldable pub wrap : CodedError → Option Bytes → CodedError
wrap e cause = record e { cause = cause }

unfoldable pub get_details : CodedError → Option Fields
unfolding clone_details
get_details e = clone_details e.details

-- `Error()`.
unfoldable pub error_text : CodedError → Bytes
error_text e = elim e.cause [
  | none ↦ e.code ++ (bytes ": " ++ e.message)
  | some c ↦ e.code ++ (bytes ": " ++ (e.message ++ (bytes ": " ++ c)))
]

pub record ErrorResponse : Type 0 where
  pub code : Bytes
  pub message : Bytes
  pub details : Option Fields
  pub request_id : Bytes

-- A nil *CodedError is `none`.
unfoldable pub to_response : Option CodedError → Bytes → ErrorResponse
unfolding clone_details
to_response none request_id = record {
  code = code_internal_error;
  message = message_internal_error;
  details = none;
  request_id = request_id;
}
to_response (some e) request_id = record {
  code = e.code;
  message = e.message;
  details = clone_details e.details;
  request_id = request_id;
}

-- A struct's members stand in the order of its fields; `details` is left out where it is empty.
abbrev details_member : Option Fields → Option (List (Bytes × Bytes))
details_member none = some []
details_member (some end) = some []
details_member (some (field k v fs)) = elim (json_fields (field k v fs)) [
  | none ↦ none
  | some m ↦ some ((bytes "details", json_object m) ∷ [])
]

unfoldable pub encode_response : ErrorResponse → Option Bytes
unfolding json_string json_fields
encode_response r = elim (details_member r.details) [
  | none ↦ none
  | some extra ↦ some (
      json_object (
        (bytes "code", json_string r.code)
        ∷ (bytes "message", json_string r.message)
        ∷ (extra ++ (bytes "request_id", json_string r.request_id) ∷ [])))
]

abbrev pub json_content_type : Bytes
json_content_type = bytes "application/json; charset=utf-8"

-- The error of json for a value of another Go type.
abbrev pub err_unsupported_type : Bytes
err_unsupported_type = bytes "json: unsupported type"

-- json.NewEncoder(w).Encode: one write, with a newline, and none if the value cannot be encoded.
unfoldable pub encode_to : {W : Type 0} → ResponseWriter W → Option Bytes → W → Option Bytes × W
encode_to rw none w = (some err_unsupported_type, w)
encode_to rw (some text) w = rw.write (text ++ 10 ∷ []) w

-- WriteJSON: the panic of WriteHeader, if any, and the error of the body.
unfoldable pub write_json :
    {W : Type 0}
    → ResponseWriter W
    → ℕ
    → Option CodedError
    → Bytes
    → W
    → Option Panic × Option Bytes × W
write_json rw status e request_id w =
    let (p, w') =
      rw.write_header status (rw.set_header (bytes "Content-Type") json_content_type w) in
    elim p [
      | some v ↦ (some v, none, w')
      | none ↦
          let (e', w'') = encode_to rw (encode_response (to_response e request_id)) w' in
          (none, e', w'')
    ]

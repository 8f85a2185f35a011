-- ===== src/Go/Json.antt =====
-- encoding/json: strings with HTML escaping, and values with the keys of maps in byte order.
use id_core.Prelude.{
  ℕ, zero, suc, ◌-◌, Bool, true, false, ◌&&◌, ◌||◌, Option, none, some, List, [], ◌∷◌, ◌++◌, ltb,
  ◌==◌, if◌then◌else◌,
}
use id_core.Go.Bytes.{Bytes, bytes, encode_rune}
use id_core.Go.Utf8.{decode_rune, rune_error}
use id_core.Go.Strconv.{hex_four}
use id_core.Go.Any.{
  Any, null, bool, number, str, other, nil_map, object, nil_slice, array, Items, nil, cons, Fields,
  end, field,
}

-- One rune inside a JSON string; `invalid` says that it stands for an invalid byte.
unfoldable pub json_rune : Bool → ℕ → Bytes
unfolding hex_four
json_rune true r = bytes "\\ufffd"
json_rune false r =
    if r == b'"' || r == 92
    then 92 ∷ r ∷ []
    else if r == 8
    then bytes "\\b"
    else if r == 9
    then bytes "\\t"
    else if r == 10
    then bytes "\\n"
    else if r == 12
    then bytes "\\f"
    else if r == 13
    then bytes "\\r"
    else if ltb r 0x20 || r == b'<' || r == b'>' || r == b'&' || r == 0x2028 || r == 0x2029
    then bytes "\\u" ++ hex_four r
    else encode_rune r

unfoldable pub json_text_after : ℕ → Bytes → Bytes
unfolding json_rune decode_rune
json_text_after skip [] = []
json_text_after (suc skip) (b ∷ s) = json_text_after skip s
json_text_after zero (b ∷ s) =
    let (r, width) = decode_rune b s in
    json_rune (r == rune_error && width == 1) r ++ json_text_after (width - 1) s

unfoldable pub json_string : Bytes → Bytes
unfolding json_text_after
json_string s = b'"' ∷ (json_text_after 0 s ++ b'"' ∷ [])

-- Whether one key stands before another.
unfoldable pub bytes_lt : Bytes → Bytes → Bool
bytes_lt [] [] = false
bytes_lt [] (b ∷ t) = true
bytes_lt (a ∷ s) [] = false
bytes_lt (a ∷ s) (b ∷ t) = ltb a b || (a == b && bytes_lt s t)

unfoldable pub insert_key : Bytes → Bytes → List (Bytes × Bytes) → List (Bytes × Bytes)
unfolding bytes_lt
insert_key k v [] = (k, v) ∷ []
insert_key k v ((j, w) ∷ m) =
    if bytes_lt k j then (k, v) ∷ (j, w) ∷ m else (j, w) ∷ insert_key k v m

-- The members of an object whose values are encoded already.
abbrev pub members : List (Bytes × Bytes) → Bytes
members [] = []
members ((k, v) ∷ []) = json_string k ++ b':' ∷ v
members ((k, v) ∷ b ∷ m) = json_string k ++ b':' ∷ (v ++ b',' ∷ members (b ∷ m))

abbrev pub json_object : List (Bytes × Bytes) → Bytes
json_object m = b'{' ∷ (members m ++ b'}' ∷ [])

abbrev pub elements : List Bytes → Bytes
elements [] = []
elements (v ∷ []) = v
elements (v ∷ w ∷ vs) = v ++ b',' ∷ elements (w ∷ vs)

infixl 5 ◌>>=◌
abbrev ◌>>=◌ : {A B : Type 0} → Option A → (A → Option B) → Option B
part >>= rest = elim part [ none ↦ none | some v ↦ rest v ]

-- json.Marshal; `none` is an error (a value of another Go type, such as a channel).
unfoldable mutual
  unfolding json_string insert_key

  json_value : Any → Option Bytes
  json_value null = some (bytes "null")
  json_value (bool true) = some (bytes "true")
  json_value (bool false) = some (bytes "false")
  json_value (number text) = some text
  json_value (str s) = some (json_string s)
  json_value (other n) = none
  json_value nil_map = some (bytes "null")
  json_value (object fs) = json_fields fs >>= λ m. some (json_object m)
  json_value nil_slice = some (bytes "null")
  json_value (array xs) = json_items xs >>= λ vs. some (b'[' ∷ (elements vs ++ b']' ∷ []))

  json_items : Items → Option (List Bytes)
  json_items nil = some []
  json_items (cons x xs) = json_value x >>= λ v. json_items xs >>= λ vs. some (v ∷ vs)

  pub json_fields : Fields → Option (List (Bytes × Bytes))
  json_fields end = some []
  json_fields (field k x fs) = json_value x >>= λ v. json_fields fs >>= λ m. some (insert_key k v m)

-- ===== src/Middleware/Query.antt =====
-- redactedPath and redactQueryString of core/internal/middleware/access_log.go.
pub mod Secrecy
use id_core.Prelude.{
  ℕ, ◌+◌, ◌-◌, ◌*◌, Bool, true, false, ◌&&◌, ◌||◌, Option, none, some, List, [], ◌∷◌, ◌++◌, map,
  leb, ◌==◌, if◌then◌else◌, take,
}
use id_core.Go.Bytes.{Bytes, bytes, index_byte, is_empty}
use id_core.Go.Split.{split, join}
use id_core.Go.Url.{query_unescape}
use id_core.Http.{Url}
use id_core.Logger.Redact.{is_field_key_to_redact, redacted_value}

-- The key of `key=value`, and of a parameter with no '='.
unfoldable pub param_key : Bytes → Bytes
unfolding index_byte
param_key p = elim (index_byte p b'=') [ none ↦ p | some eq ↦ take eq p ]

unfoldable pub has_value : Bytes → Bool
unfolding index_byte
has_value p = elim (index_byte p b'=') [ none ↦ false | some eq ↦ true ]

abbrev or_raw : Bytes → Option Bytes → Bytes
or_raw key none = key
or_raw key (some decoded) = decoded

-- A key that cannot be decoded is judged as it stands.
unfoldable pub decoded_key : Bytes → Bytes
unfolding query_unescape
decoded_key key = or_raw key (query_unescape key)

module _ (unicode_lower : ℕ → ℕ) where
  -- The body of the loop over the parameters.
  unfoldable pub redact_param : Bytes → Bytes
  redact_param p =
      let key = param_key p in
      if is_field_key_to_redact unicode_lower (decoded_key key)
      then (if has_value p then key ++ (b'=' ∷ redacted_value) else key)
      else p

  unfoldable pub redact_query_string : Bytes → Bytes
  redact_query_string raw = join (map redact_param (split raw b'&')) b'&'

  unfoldable pub redacted_path : Option Url → Bytes
  unfolding is_empty
  redacted_path none = []
  redacted_path (some u) =
      if is_empty u.raw_query
      then u.escaped_path
      else u.escaped_path ++ (bytes "?" ++ redact_query_string u.raw_query)

-- ===== src/Logger/Context.antt =====
-- core/internal/logger/context.go: the ids that a context carries.
pub mod Laws
use id_core.Prelude.{Option, none, some, []}
use id_core.Go.Bytes.{Bytes, bytes}
use id_core.Go.Any.{Any, str}
use id_core.Go.Context.{Context, CtxKey, logger_key, background, with_value, value}

abbrev pub request_id_key : CtxKey
request_id_key = logger_key (bytes "request_id")

abbrev pub event_id_key : CtxKey
event_id_key = logger_key (bytes "event_id")

-- The type assertion `.(string)`, with the empty string where it fails.
abbrev pub string_or_empty : Option Any → Bytes
string_or_empty (some (str s)) = s
string_or_empty _ = []

-- A nil context is `none`.
unfoldable pub with_request_id : Option Context → Bytes → Context
with_request_id none id = with_value background request_id_key (str id)
with_request_id (some ctx) id = with_value ctx request_id_key (str id)

unfoldable pub request_id_from : Option Context → Bytes
unfolding value
request_id_from none = []
request_id_from (some ctx) = string_or_empty (value ctx request_id_key)

unfoldable pub with_event_id : Option Context → Bytes → Context
with_event_id none id = with_value background event_id_key (str id)
with_event_id (some ctx) id = with_value ctx event_id_key (str id)

unfoldable pub event_id_from : Option Context → Bytes
unfolding value
event_id_from none = []
event_id_from (some ctx) = string_or_empty (value ctx event_id_key)

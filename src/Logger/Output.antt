-- ===== src/Logger/Output.antt =====
-- core/internal/logger/logger.go and format.go: the format, the levels and the assembly of a record.
-- slog encodes a record; here the records that reach the handler are kept as they are.
pub mod Ids
use id_core.Prelude.{
  ℕ, Bool, Option, none, some, List, [], ◌∷◌, ◌++◌, leb, if◌then◌else◌, Result, ok, err,
}
use id_core.Go.Bytes.{Bytes, bytes, bytes_eq, is_empty}
use id_core.Go.Any.{Any}
use id_core.Go.Context.{Context, background}
use id_core.Logger.Context.{request_id_from, event_id_from}

pub data Format : Type 0 where
  format_json format_text : Format

-- The error holds the value that was refused. An unset variable reads as empty (os.Getenv).
unfoldable pub format_from_env : Bytes → Result Bytes Format
unfolding bytes_eq is_empty
format_from_env v =
    if is_empty v
    then ok format_json
    else if bytes_eq v (bytes "json")
    then ok format_json
    else if bytes_eq v (bytes "text")
    then ok format_text
    else err v

pub data Level : Type 0 where
  debug info warn error : Level

-- slog's levels, moved up by 4 so that Debug is 0.
abbrev pub severity : Level → ℕ
severity debug = 0
severity info = 4
severity warn = 8
severity error = 12

-- Attribute values: strings, integers, microseconds, durations in nanoseconds, and any other Go value.
pub data AttrValue : Type 0 where
  text : Bytes → AttrValue
  int : ℕ → AttrValue
  micros : ℕ → AttrValue
  duration : ℕ → AttrValue
  group : Any → AttrValue

abbrev pub Attr : Type 0
Attr = Bytes × AttrValue

pub record LogRecord : Type 0 where
  pub level : Level
  pub message : Bytes
  pub attrs : List Attr

-- An id is added only if it is not empty.
abbrev pub id_attr : Bytes → Bytes → List Attr
id_attr key [] = []
id_attr key (c ∷ s) = (key, text (c ∷ s)) ∷ []

-- `errVal.Error()`, if there is an error.
abbrev pub error_attr : Option Bytes → List Attr
error_attr none = []
error_attr (some e) = (bytes "error", text e) ∷ []

abbrev pub or_background : Option Context → Context
or_background none = background
or_background (some ctx) = ctx

-- HandlerOptions.Level is LevelDebug.
abbrev pub enabled : Level → Bool
enabled level = leb (severity debug) (severity level)

unfoldable pub log_record : Option Context → Level → Bytes → Option Bytes → List Attr → LogRecord
log_record ctx level msg err_val args = record {
  level = level;
  message = msg;
  attrs =
      id_attr (bytes "request_id") (request_id_from (some (or_background ctx)))
      ++ (id_attr (bytes "event_id") (event_id_from (some (or_background ctx)))
          ++ (args ++ error_attr err_val));
}

-- Logger.log: what the log holds afterwards.
unfoldable pub log :
    Option Context → Level → Bytes → Option Bytes → List Attr → List LogRecord → List LogRecord
unfolding log_record
log ctx level msg err_val args logs =
    if enabled level then logs ++ log_record ctx level msg err_val args ∷ [] else logs

-- ===== src/Logger/Lines.antt =====
-- core/internal/logger: a logger that writes, from the call of Info or Error down to the two writers.
-- log/slog is the record Slog.
pub mod Accounts
pub mod Reliable
use id_core.Prelude.{
  ℕ, Bool, ◌&&◌, false, Option, List, [], ◌∷◌, map, if◌then◌else◌, Result, ok, err, ◌>>=◌,
}
use id_core.Go.Bytes.{Bytes, bytes, bytes_eq}
use id_core.Go.Context.{Context}
use id_core.Logger.Output.{
  Format, format_from_env, Level, AttrValue, Attr, LogRecord, enabled, log_record,
}
use id_core.Logger.Fallback.{Sink, FallbackWriter, new_fallback_writer, write}

-- slog.Value: a time, a string, or another value.
pub data Value (Time : Type 0) : Type 0 where
  time : Time → Value Time
  str : Bytes → Value Time
  other : AttrValue → Value Time

-- slog.Attr, as the hook ReplaceAttr sees it.
pub record SlogAttr (Time : Type 0) : Type 0 where
  pub key : Bytes
  pub value : Value Time

-- `t.UTC().Format(time.RFC3339Nano)`, and what the JSON or text handler with a hook makes of a record
-- with a time. A handler hands the text of a record to its writer in one call of Write.
pub record Slog (Time : Type 0) : Type 0 where
  pub utc_rfc3339_nano : Time → Bytes
  pub encode : Format → (SlogAttr Time → SlogAttr Time) → Time → LogRecord → Bytes

-- What a caller passes to a method of the logger, and time.Now() at the call.
pub record Call (Time : Type 0) : Type 0 where
  pub now : Time
  pub ctx : Option Context
  pub level : Level
  pub message : Bytes
  pub cause : Option Bytes
  pub args : List Attr

module _ {Time : Type 0} (slog : Slog Time) where
  abbrev pub in_utc : Value Time → Value Time
  in_utc (time t) = str (slog.utc_rfc3339_nano t)
  in_utc v = v

  unfoldable pub utc_time_replace_attr : SlogAttr Time → SlogAttr Time
  unfolding bytes_eq
  utc_time_replace_attr a =
      if bytes_eq a.key (bytes "time") then record a { value = in_utc a.value } else a

  -- newHandler: the format picks the handler, the hook is the same.
  abbrev pub new_handler : Format → Time → LogRecord → Bytes
  new_handler format = slog.encode format utc_time_replace_attr

module _ (Time : Type 0) (primary fallback : Sink) where
  pub record Logger : Type 0 where
    pub handler : Time → LogRecord → Bytes
    pub writer : FallbackWriter primary fallback

  unfoldable pub new_logger : Slog Time → Format → primary.State → fallback.State → Logger
  unfolding utc_time_replace_attr
  new_logger slog format w stderr = record {
    handler = new_handler slog format;
    writer = new_fallback_writer primary fallback w stderr;
  }

  -- Default, where `value` is that of CORE_LOG_FORMAT.
  unfoldable pub default_logger :
      Slog Time → Bytes → primary.State → fallback.State → Result Bytes Logger
  unfolding new_logger format_from_env
  default_logger slog value stdout stderr = do
    format ← format_from_env value
    ok (new_logger slog format stdout stderr)

  -- Logger.log; the error of Handle is dropped.
  unfoldable pub write_log : Call Time → Logger → Logger
  unfolding log_record write
  write_log c l =
      if enabled c.level
      then record l {
        writer =
            (write primary fallback
              (l.handler c.now (log_record c.ctx c.level c.message c.cause c.args)) l.writer).1;
      }
      else l

-- ===== src/Middleware/Recover.antt =====
-- core/internal/middleware/recover.go.
use id_core.Prelude.{Option, none, some, List, [], ◌∷◌, if◌then◌else◌}
use id_core.Go.Bytes.{Bytes, bytes}
use id_core.Go.Context.{Context}
use id_core.Go.Http.{Panic, error_value, other_value}
use id_core.Http.{Handler, ResponseWriter, World}
use id_core.Logger.Context.{request_id_from}
use id_core.Logger.Output.{error, Attr, text, int, LogRecord, log}
use id_core.Apperror.{new, code_internal_error, message_internal_error, write_json}
use id_core.Middleware.Recorder.{StatusRecorder, new_recorder, recorded}

-- The text of the panic value, as an error or under %v. The Error or String method of the value is
-- taken to return.
abbrev pub panic_text : Panic → Bytes
panic_text (error_value t) = t
panic_text (other_value t) = t

abbrev pub status_already_written : StatusRecorder → List Attr
status_already_written r =
    if r.wrote_header then (bytes "status_already_written", int r.status) ∷ [] else []

abbrev pub message_panic : Bytes
message_panic = bytes "ハンドラで panic を捕捉しました"

abbrev pub message_write_failed : Bytes
message_write_failed = bytes "panic 応答の書き込みに失敗しました"

-- An error of the reply is logged.
abbrev pub log_write_error : Context → Option Bytes → List LogRecord → List LogRecord
log_write_error ctx none logs = logs
log_write_error ctx (some e) logs = log (some ctx) error message_write_failed (some e) [] logs

module _ {W : Type 0} (rw : ResponseWriter W) (ctx : Context) where
  -- The reply to a panic that came before any status line.
  unfoldable pub reply_internal_error :
      World (StatusRecorder × W) → Option Panic × World (StatusRecorder × W)
  reply_internal_error s =
      let (p, e, w) =
        write_json (recorded rw) 500 (some (new code_internal_error message_internal_error))
          (request_id_from (some ctx)) s.writer in
      elim p [
        | some v ↦ (some v, record s { writer = w })
        | none ↦ (none, record s { writer = w; logs = log_write_error ctx e s.logs })
      ]

  -- The record of the panic, with its stack.
  unfoldable pub log_panic : Bytes → Panic → World (StatusRecorder × W) → World (StatusRecorder × W)
  log_panic stack v s = record s {
    logs =
        log (some ctx) error message_panic (some (panic_text v))
          ((bytes "stack_trace", text stack) ∷ status_already_written s.writer.0) s.logs;
  }

  -- The deferred function; `stack` is the text of debug.Stack().
  unfoldable pub recover_from :
      Bytes → Option Panic → World (StatusRecorder × W) → Option Panic × World (StatusRecorder × W)
  recover_from stack none s = (none, s)
  recover_from stack (some v) s =
      if s.writer.0.wrote_header
      then (none, log_panic stack v s)
      else reply_internal_error (log_panic stack v s)

unfoldable pub recover : Bytes → Handler → Handler
recover stack next W rw r s =
    let (p, t) =
      next _ (recorded rw) r
        (record { writer = (new_recorder, s.writer); logs = s.logs; sequence = s.sequence }) in
    let (p', t') = recover_from rw r.context stack p t in
    (p', record { writer = t'.writer.1; logs = t'.logs; sequence = t'.sequence })

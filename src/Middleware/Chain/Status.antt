-- ===== src/Middleware/Chain/Status.antt =====
-- The status that the access log shows, against the one that the client receives.
use id_core.Prelude.{ℕ, false, none, some, List, [], ◌∷◌, ◌++◌, ◌≡◌, refl, sym, ◌∙◌, arith}
use id_core.Go.Bytes.{Bytes, bytes}
use id_core.Go.Http.{Response, finish_request}
use id_core.Http.{Request, World, server_writer, Program, run, serve}
use id_core.Apperror.{new}
use id_core.Middleware.Recover.{recover}
use id_core.Logger.Output.{LogRecord, log_record}
use id_core.Logger.Output.Ids.{log-append}
use id_core.Middleware.RequestId.{identify, request_id}
use id_core.Middleware.AccessLog.{level_from_status, access_attrs, access_log}
use id_core.Middleware.Chain.{Runtime, wrap}
use id_core.Middleware.Recorder.{StatusRecorder, new_recorder, recorded}
use id_core.Middleware.Chain.Agree.{
  IsPlain, shown, Stack, stack_writer, Agree, run-Agree, recover_from-Agree,
}

-- The stack under `access_log` after the handler and `recover`.
record Shows (s : World (StatusRecorder × Response)) : Type 0 where
  status : s.writer.0.status ≡ shown s.writer.1
  owned : s.writer.1.hijacked ≡ false

abbrev pub IsFresh : Response → Type 0
IsFresh w = (w.wrote_header ≡ false) × (w.hijacked ≡ false)

starts :
    (w : StatusRecorder × Response) → w.0 ≡ new_recorder → IsFresh w.1 → Agree (new_recorder, w)
starts w new fresh = ground arith

recover-Shows :
    (stack : Bytes) (body : Request → Program) (r : Request) (s : World (StatusRecorder × Response))
    → IsPlain (body r)
    → s.writer.0 ≡ new_recorder
    → IsFresh s.writer.1
    → Shows (recover stack (serve body) _ (recorded server_writer) r s).1
unfolding recover serve
recover-Shows stack body r s plain new fresh =
    let start : World Stack = record {
      writer = (new_recorder, s.writer);
      logs = s.logs;
      sequence = s.sequence;
    } in
    let begun : Agree start.writer = starts s.writer new fresh in
    let ran = run-Agree r.context (body r) start plain begun in
    let result = run stack_writer r.context (body r) start in
    let after = recover_from-Agree r.context stack result.0 result.1 ran in
    record { status = after.inner_status; owned = after.owned }

pub finish-shown : (w : Response) → w.hijacked ≡ false → (finish_request w).status ≡ shown w
unfolding finish_request
finish-shown w owned = ground arith

-- The status that the client receives once the handler has returned.
abbrev pub client_status : Response → ℕ
client_status w = (finish_request w).status

-- The last record of the log is the access line of the request `r` with this status.
abbrev pub EndsWithAccess : (ℕ → ℕ) → Request → ℕ → ℕ → List LogRecord → Type 0
EndsWithAccess u r status elapsed logs =
    (before : List LogRecord) × (logs
      ≡ before
        ++ log_record (some r.context) (level_from_status status) (bytes "access") none
            (access_attrs u r status elapsed)
          ∷ [])

module _ (unicode_lower : ℕ → ℕ) (t : Runtime) (body : Request → Program)
    (plain : (r : Request) → IsPlain (body r)) where
  access_log-Ends :
      (r : Request) (s : World Response)
      → IsFresh s.writer
      → EndsWithAccess unicode_lower r
          (client_status
            (access_log unicode_lower t.elapsed
              (recover t.stack (serve body))
              Response
              server_writer
              r
              s).1.writer)
          t.elapsed
          (access_log unicode_lower t.elapsed
            (recover t.stack (serve body))
            Response
            server_writer
            r
            s).1.logs
  unfolding access_log
  access_log-Ends r s fresh =
      let start : World (StatusRecorder × Response) = record {
        writer = (new_recorder, s.writer);
        logs = s.logs;
        sequence = s.sequence;
      } in
      let ends = recover-Shows t.stack body r start (plain r) refl fresh in
      let after = (recover t.stack (serve body) _ (recorded server_writer) r start).1 in
      let same : client_status after.writer.1 ≡ after.writer.0.status =
        finish-shown after.writer.1 ends.owned ∙ sym ends.status in
      rw same (after.logs, log-append (some r.context) _ _ none _ after.logs)

  -- For a handler that writes final statuses only and neither flushes nor hijacks, whether it
  -- returns or panics: the last record of the request is its access line, and the status in it, by
  -- which its level goes, is the status that the client receives. Its attributes are those of the
  -- request with its id.
  pub wrap-Ends :
      (r : Request) (s : World Response)
      → IsFresh s.writer
      → EndsWithAccess unicode_lower
          (identify t.process t.uuid t.nanos r s.sequence).0
          (client_status (wrap unicode_lower t (serve body) Response server_writer r s).1.writer)
          t.elapsed
          (wrap unicode_lower t (serve body) Response server_writer r s).1.logs
  unfolding wrap request_id
  wrap-Ends r s fresh =
      access_log-Ends (identify t.process t.uuid t.nanos r s.sequence).0 _
        (unfold server_writer in fresh)

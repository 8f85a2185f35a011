-- ===== src/Middleware/Chain/Logs.antt =====
-- Every record of a request carries its id.
use id_core.Prelude.{
  ℕ, Bool, true, false, Option, none, some, List, [], ◌∷◌, ◌++◌, ◌≡◌, ◌≢◌, refl, sym, ap, ◌∙◌,
  Bool-cases, Option-cases, inl, inr, All, All-append, append_assoc, append-nil, if◌then◌else◌,
}
use id_core.Go.Bytes.{Bytes}
use id_core.Go.Context.{Context}
use id_core.Go.Http.{Panic, Response, get_header}
use id_core.Http.{
  ResponseWriter, Request, World, server_writer, Program, done, panic, set_header, write_header,
  write, flush, hijack, log, run, serve,
}
use id_core.Logger.Context.{with_request_id, request_id_from}
use id_core.Logger.Output.{Level, Attr, LogRecord, log_record, log as log_to}
use id_core.Logger.Output.Ids.{log-append, Carries, log_record-Carries}
use id_core.Apperror.{new, code_internal_error, message_internal_error, write_json}
use id_core.Middleware.Recorder.{StatusRecorder, new_recorder, recorded}
use id_core.Middleware.Recover.{
  log_write_error, log_panic, reply_internal_error, recover_from, recover,
}
use id_core.Middleware.AccessLog.{access_log}
use id_core.Middleware.RequestId.{
  Process, header_x_request_id, is_valid_request_id, fallback_id, new_request_id, choose_id,
  with_client_request_id, keep_client_id, identify, request_id,
}
use id_core.Middleware.RequestId.Sanitize.{is_valid_request_id_iff}
use id_core.Middleware.Chain.{Runtime, wrap}

-- The later log is the earlier one and more records, which all carry the id.
pub record Extends (id : Bytes) (old late : List LogRecord) : Type 0 where
  pub added : List LogRecord
  pub whole : late ≡ old ++ added
  pub carry : All (Carries id) added

Extends-refl : (id : Bytes) (old : List LogRecord) → Extends id old old
Extends-refl id old = record { added = []; whole = sym (append-nil old); carry = tt }

Extends-trans :
    {id : Bytes} {a b c : List LogRecord} → Extends id a b → Extends id b c → Extends id a c
Extends-trans {id} {a} p q = record {
  added = p.added ++ q.added;
  whole = q.whole ∙ ap (λ l. l ++ q.added) p.whole ∙ append_assoc a p.added q.added;
  carry = All-append (Carries id) p.added q.added p.carry q.carry;
}

module _ (ctx : Context) (named : request_id_from (some ctx) ≢ []) where
  abbrev Ext : List LogRecord → List LogRecord → Type 0
  Ext = Extends (request_id_from (some ctx))

  log-Extends :
      (level : Level) (msg : Bytes) (e : Option Bytes) (args : List Attr) (logs : List LogRecord)
      → Ext logs (log_to (some ctx) level msg e args logs)
  log-Extends level msg e args logs = record {
    added = log_record (some ctx) level msg e args ∷ [];
    whole = log-append (some ctx) level msg e args logs;
    carry = (log_record-Carries ctx level msg e args named, tt);
  }

  run-Extends :
      {W : Type 0} (out : ResponseWriter W) (body : Program) (s : World W)
      → Ext s.logs (run out ctx body s).1.logs
  unfolding run
  run-Extends out done s = Extends-refl _ s.logs
  run-Extends out (panic v) s = Extends-refl _ s.logs
  run-Extends out (set_header k v rest) s = run-Extends out rest _
  run-Extends out (write_header code rest) s =
      elim (Option-cases (out.write_header code s.writer).0) [
        | inl fine ↦ rw (fine, run) (run-Extends out rest _)
        | inr (v, refused) ↦ rw (refused, run) (Extends-refl _ s.logs)
      ]
  run-Extends out (write p rest) s = run-Extends out (rest _) _
  run-Extends out (flush rest) s = run-Extends out rest _
  run-Extends out (hijack rest) s = run-Extends out (rest _) _
  run-Extends out (log level msg e args rest) s =
      Extends-trans (log-Extends level msg e args s.logs) (run-Extends out rest _)

  log_write_error-Extends :
      (e : Option Bytes) (logs : List LogRecord) → Ext logs (log_write_error ctx e logs)
  log_write_error-Extends none logs = Extends-refl _ logs
  log_write_error-Extends (some e) logs = log-Extends _ _ _ _ logs

  reply-Extends :
      {W : Type 0} (out : ResponseWriter W) (s : World (StatusRecorder × W))
      → Ext s.logs (reply_internal_error out ctx s).1.logs
  unfolding reply_internal_error
  reply-Extends out s =
      let e = some (new code_internal_error message_internal_error) in
      elim (Option-cases
        (write_json (recorded out) 500 e (request_id_from (some ctx)) s.writer).0) [
          | inl fine ↦ rw (fine, reply_internal_error) (log_write_error-Extends _ s.logs)
          | inr (v, refused) ↦ rw (refused, reply_internal_error) (Extends-refl _ s.logs)
        ]

  branch-Extends :
      {W : Type 0} (logs : List LogRecord) (b : Bool) (x y : Option Panic × World W)
      → Ext logs x.1.logs
      → Ext logs y.1.logs
      → Ext logs (if b then x else y).1.logs
  branch-Extends logs true x y h k = h
  branch-Extends logs false x y h k = k

  recover_from-Extends :
      {W : Type 0} (out : ResponseWriter W) (stack : Bytes) (p : Option Panic)
      (s : World (StatusRecorder × W))
      → Ext s.logs (recover_from out ctx stack p s).1.logs
  unfolding recover_from log_panic
  recover_from-Extends out stack none s = Extends-refl _ s.logs
  recover_from-Extends out stack (some v) s =
      let logged = log_panic out ctx stack v s in
      let here : Ext s.logs logged.logs = log-Extends _ _ _ _ s.logs in
      branch-Extends s.logs s.writer.0.wrote_header (none, logged)
        (reply_internal_error out ctx logged) here (Extends-trans here (reply-Extends out logged))

recover-Extends :
    (stack : Bytes) (body : Request → Program) (r : Request) {W : Type 0} (out : ResponseWriter W)
    (s : World W)
    → request_id_from (some r.context) ≢ []
    → Extends
        (request_id_from (some r.context))
        s.logs
        (recover stack (serve body) W out r s).1.logs
unfolding recover serve
recover-Extends stack body r out s named =
    Extends-trans
      (run-Extends r.context named (recorded out) (body r)
        (record { writer = (new_recorder, s.writer); logs = s.logs; sequence = s.sequence }))
      (recover_from-Extends r.context named out stack _ _)

-- The id in the context is the one that goes into the header.
identify-id :
    (p : Process) (uuid : Option Bytes) (nanos : ℕ) (r : Request) (n : ℕ)
    → request_id_from (some (identify p uuid nanos r n).0.context) ≡ (identify p uuid nanos r n).1
unfolding identify
identify-id p uuid nanos r n =
    kept _ (choose_id p uuid nanos (get_header header_x_request_id r.header) n).1
  where
    kept :
        (id client : Bytes)
        → request_id_from (some (keep_client_id (with_request_id (some r.context) id) client)) ≡ id
    kept id [] = unfold request_id_from with_request_id in refl
    kept id (c ∷ s) = unfold request_id_from with_request_id with_client_request_id in refl

new_request_id-ne-nil :
    (p : Process) (uuid : Option Bytes) (nanos n : ℕ)
    → uuid ≢ some []
    → (new_request_id p uuid nanos n).0 ≢ []
unfolding new_request_id fallback_id
new_request_id-ne-nil p none nanos n real e = cc
new_request_id-ne-nil p (some id) nanos n real e = real (ap some e)

identify-ne-nil :
    (p : Process) (uuid : Option Bytes) (nanos : ℕ) (r : Request) (n : ℕ)
    → uuid ≢ some []
    → (identify p uuid nanos r n).1 ≢ []
unfolding identify choose_id
identify-ne-nil p uuid nanos r n real =
    elim (Bool-cases (is_valid_request_id (get_header header_x_request_id r.header))) [
      | inl valid ↦ rw valid ((is_valid_request_id_iff _).0 valid).0
      | inr other ↦ rw other (new_request_id-ne-nil p uuid nanos n real)
    ]

-- Every record that a request adds to the log, those of its handler, of a panic and of the access
-- log, begins with the request's id, which is not empty, provided that uuid.NewV7 gives no empty
-- text.
pub wrap-Extends :
    (unicode_lower : ℕ → ℕ) (t : Runtime) (body : Request → Program) (r : Request)
    (s : World Response)
    → t.uuid ≢ some []
    → ((identify t.process t.uuid t.nanos r s.sequence).1 ≢ [])
      × Extends
          (identify t.process t.uuid t.nanos r s.sequence).1
          s.logs
          (wrap unicode_lower t (serve body) Response server_writer r s).1.logs
unfolding wrap request_id access_log
wrap-Extends unicode_lower t body r s real =
    let q = (identify t.process t.uuid t.nanos r s.sequence).0 in
    let same = identify-id t.process t.uuid t.nanos r s.sequence in
    let named = identify-ne-nil t.process t.uuid t.nanos r s.sequence real in
    let named' : request_id_from (some q.context) ≢ [] = λ e. named (sym same ∙ e) in
    (
      named,
      rw (← same) (
          Extends-trans (recover-Extends t.stack body q (recorded server_writer) _ named')
            (log-Extends q.context named' _ _ _ _ _)),
    )

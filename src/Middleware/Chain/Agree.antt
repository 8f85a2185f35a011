-- ===== src/Middleware/Chain/Agree.antt =====
-- What the recorders know of the response, through a handler and through Recover.
use id_core.Prelude.{
  ℕ, true, false, Option, none, some, [], ◌∷◌, ◌++◌, ◌≡◌, refl, arith, Bool-cases, Option-cases,
  inl, inr, if◌then◌else◌,
}
use id_core.Go.Bytes.{Bytes, bytes}
use id_core.Go.Context.{Context}
use id_core.Go.Http.{Panic, Response, is_valid_code, is_informational}
use id_core.Http.{
  ResponseWriter, World, server_writer, Program, done, panic, set_header, write_header, write,
  flush, hijack, log, run,
}
use id_core.Apperror.{
  CodedError, new, code_internal_error, message_internal_error, json_content_type, encode_to,
  write_json,
}
use id_core.Logger.Context.{request_id_from}
use id_core.Middleware.Recover.{log_panic, reply_internal_error, recover_from}
use id_core.Middleware.Chain.Panics.{
  recover_from-wrote, recover_from-fresh, recorded-Accepts500, server_writer-Accepts500,
}
use id_core.Middleware.Recorder.{StatusRecorder, recorded}

-- A status that ends a response: a code that net/http accepts, and no informational one.
abbrev pub IsFinal : ℕ → Type 0
IsFinal code = (is_valid_code code ≡ true) × (is_informational code ≡ false)

-- A handler that writes final statuses only, and neither flushes nor hijacks. It may panic.
abbrev pub IsPlain : Program → Type 0
IsPlain done = Unit
IsPlain (panic v) = Unit
IsPlain (set_header k v rest) = IsPlain rest
IsPlain (write_header code rest) = IsFinal code × IsPlain rest
IsPlain (write p rest) = (e : Option Bytes) → IsPlain (rest e)
IsPlain (flush rest) = ⊥
IsPlain (hijack rest) = ⊥
IsPlain (log level msg e args rest) = IsPlain rest

-- The status that the client gets if nothing more happens.
abbrev pub shown : Response → ℕ
shown w = if w.wrote_header then w.status else 200

abbrev pub Stack : Type 0
Stack = StatusRecorder × (StatusRecorder × Response)

abbrev pub stack_writer : ResponseWriter Stack
stack_writer = recorded (recorded server_writer)

-- Both recorders know what the server has sent.
pub record Agree (s : Stack) : Type 0 where
  pub outer_wrote : s.0.wrote_header ≡ s.1.1.wrote_header
  pub inner_wrote : s.1.0.wrote_header ≡ s.1.1.wrote_header
  pub outer_status : s.0.status ≡ shown s.1.1
  pub inner_status : s.1.0.status ≡ shown s.1.1
  pub owned : s.1.1.hijacked ≡ false

write_header-Agree :
    (code : ℕ) (s : Stack) → IsFinal code → Agree s → Agree (stack_writer.write_header code s).1
unfolding recorded server_writer
write_header-Agree code s final a = ground arith

write-Agree : (p : Bytes) (s : Stack) → Agree s → Agree (stack_writer.write p s).1
unfolding recorded server_writer
write-Agree p s a = ground arith

set_header-Agree : (k v : Bytes) (s : Stack) → Agree s → Agree (stack_writer.set_header k v s)
unfolding recorded server_writer
set_header-Agree k v s a = ground arith

pub run-Agree :
    (ctx : Context) (body : Program) (s : World Stack)
    → IsPlain body
    → Agree s.writer
    → Agree (run stack_writer ctx body s).1.writer
unfolding run
run-Agree ctx done s plain a = a
run-Agree ctx (panic v) s plain a = a
run-Agree ctx (set_header k v rest) s plain a =
    run-Agree ctx rest _ plain (set_header-Agree k v s.writer a)
run-Agree ctx (write_header code rest) s plain a =
    let here = write_header-Agree code s.writer plain.0 a in
    elim (Option-cases (stack_writer.write_header code s.writer).0) [
      | inl fine ↦ rw (fine, run) (run-Agree ctx rest _ plain.1 here)
      | inr (v, refused) ↦ rw (refused, run) here
    ]
run-Agree ctx (write p rest) s plain a =
    run-Agree ctx (rest (stack_writer.write p s.writer).0) _ (plain _) (write-Agree p s.writer a)
run-Agree ctx (flush rest) s plain a = absurd plain
run-Agree ctx (hijack rest) s plain a = absurd plain
run-Agree ctx (log level msg e args rest) s plain a = run-Agree ctx rest _ plain a

encode_to-Agree :
    (text : Option Bytes) (s : Stack) → Agree s → Agree (encode_to stack_writer text s).1
unfolding encode_to
encode_to-Agree none s a = a
encode_to-Agree (some text) s a = write-Agree (text ++ 10 ∷ []) s a

write_json-Agree :
    (e : Option CodedError) (id : Bytes) (s : Stack)
    → Agree s
    → Agree (write_json stack_writer 500 e id s).2
unfolding write_json
write_json-Agree e id s a =
    let typed = set_header-Agree (bytes "Content-Type") json_content_type s a in
    let started = write_header-Agree 500 _ (refl, refl) typed in
    elim (Option-cases
      (stack_writer.write_header 500
        (stack_writer.set_header (bytes "Content-Type") json_content_type s)).0) [
          | inl fine ↦ rw (fine, write_json) (encode_to-Agree _ _ started)
          | inr (v, refused) ↦ rw (refused, write_json) started
        ]

reply-Agree :
    (ctx : Context) (s : World Stack)
    → Agree s.writer
    → Agree (reply_internal_error (recorded server_writer) ctx s).1.writer
unfolding reply_internal_error
reply-Agree ctx s a =
    let written =
      write_json-Agree (some (new code_internal_error message_internal_error))
        (request_id_from (some ctx)) s.writer a in
    elim (Option-cases
      (write_json stack_writer 500 (some (new code_internal_error message_internal_error))
        (request_id_from (some ctx)) s.writer).0) [
          | inl fine ↦ rw (fine, reply_internal_error) written
          | inr (v, refused) ↦ rw (refused, reply_internal_error) written
        ]

pub recover_from-Agree :
    (ctx : Context) (stack : Bytes) (p : Option Panic) (s : World Stack)
    → Agree s.writer
    → Agree (recover_from (recorded server_writer) ctx stack p s).1.writer
unfolding log_panic recover_from
recover_from-Agree ctx stack none s a = a
recover_from-Agree ctx stack (some v) s a = elim (Bool-cases s.writer.0.wrote_header) [
  | inl wrote ↦
      rw
        (recover_from-wrote (recorded server_writer)
          (recorded-Accepts500 server_writer server_writer-Accepts500) ctx stack v s wrote)
        a
  | inr fresh ↦
      rw
        (recover_from-fresh (recorded server_writer)
          (recorded-Accepts500 server_writer server_writer-Accepts500) ctx stack v s fresh)
        (reply-Agree ctx (log_panic (recorded server_writer) ctx stack v s) a)
]

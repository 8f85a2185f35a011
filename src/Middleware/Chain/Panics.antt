-- ===== src/Middleware/Chain/Panics.antt =====
-- What becomes of a handler's panic.
use id_core.Prelude.{
  ℕ, true, false, Option, none, some, ◌≡◌, refl, sym, ap, ◌∙◌, arith, Bool-cases, inl, inr,
}
use id_core.Go.Bytes.{Bytes, bytes}
use id_core.Go.Context.{Context}
use id_core.Apperror.{
  CodedError, new, code_internal_error, message_internal_error, write_json, json_content_type,
}
use id_core.Logger.Context.{request_id_from}
use id_core.Go.Http.{Panic, Response}
use id_core.Http.{Handler, ResponseWriter, Request, World, server_writer}
use id_core.Middleware.Recorder.{StatusRecorder, new_recorder, recorded}
use id_core.Middleware.RequestId.{request_id}
use id_core.Middleware.AccessLog.{access_log}
use id_core.Middleware.Recover.{log_panic, recover_from, reply_internal_error, recover}
use id_core.Middleware.Chain.{Runtime, wrap}

-- Status 500 is never refused.
pub record Accepts500 (W : Type 0) (out : ResponseWriter W) : Type 0 where
  pub accepts : (w : W) → (out.write_header 500 w).0 ≡ none

pub server_writer-Accepts500 : Accepts500 Response server_writer
unfolding server_writer
server_writer-Accepts500 = record { accepts = λ w. ground arith }

pub recorded-Accepts500 :
    {W : Type 0} (out : ResponseWriter W)
    → Accepts500 W out
    → Accepts500 (StatusRecorder × W) (recorded out)
unfolding recorded
recorded-Accepts500 out a = record { accepts = λ s. ground (arith, a.accepts s.1) }

write_json-returns :
    {W : Type 0} (out : ResponseWriter W) (e : Option CodedError) (id : Bytes) (w : W)
    → Accepts500 W out
    → (write_json out 500 e id w).0 ≡ none
unfolding write_json
write_json-returns out e id w a =
    rw (a.accepts (out.set_header (bytes "Content-Type") json_content_type w), write_json)

module _ {W : Type 0} (out : ResponseWriter W) (ok500 : Accepts500 W out) where
  reply-returns :
      (ctx : Context) (s : World (StatusRecorder × W)) → (reply_internal_error out ctx s).0 ≡ none
  unfolding reply_internal_error
  reply-returns ctx s = rw (
    write_json-returns (recorded out) _ _ s.writer (recorded-Accepts500 out ok500),
    reply_internal_error,
  )

  recover_from-returns :
      (ctx : Context) (stack : Bytes) (p : Option Panic) (s : World (StatusRecorder × W))
      → (recover_from out ctx stack p s).0 ≡ none
  unfolding recover_from
  recover_from-returns ctx stack none s = refl
  recover_from-returns ctx stack (some v) s = elim (Bool-cases s.writer.0.wrote_header) [
    | inl wrote ↦ rw (wrote, recover_from)
    | inr fresh ↦ rw (fresh, recover_from) (reply-returns ctx _)
  ]

  -- Whatever the handler does, the handler under `recover` returns: no panic passes it.
  recover-returns :
      (stack : Bytes) (next : Handler) (r : Request) (s : World W)
      → (recover stack next W out r s).0 ≡ none
  unfolding recover
  recover-returns stack next r s = recover_from-returns r.context stack _ _

  -- After a status line has gone out the writer is left as the handler left it.
  pub recover_from-wrote :
      (ctx : Context) (stack : Bytes) (v : Panic) (s : World (StatusRecorder × W))
      → s.writer.0.wrote_header ≡ true
      → (recover_from out ctx stack (some v) s).1.writer ≡ s.writer
  unfolding recover_from log_panic
  recover_from-wrote ctx stack v s wrote = ground arith

  pub recover_from-fresh :
      (ctx : Context) (stack : Bytes) (v : Panic) (s : World (StatusRecorder × W))
      → s.writer.0.wrote_header ≡ false
      → recover_from out ctx stack (some v) s
        ≡ reply_internal_error out ctx (log_panic out ctx stack v s)
  unfolding recover_from
  recover_from-fresh ctx stack v s fresh = rw fresh

  -- The reply is a function of the writer and the context.
  pub reply-writer :
      (ctx : Context) (s : World (StatusRecorder × W))
      → (reply_internal_error out ctx s).1.writer
        ≡ (write_json
            (recorded out)
            500
            (some (new code_internal_error message_internal_error))
            (request_id_from (some ctx))
            s.writer).2
  unfolding reply_internal_error
  reply-writer ctx s = rw (
    write_json-returns (recorded out) _ _ s.writer (recorded-Accepts500 out ok500),
    reply_internal_error,
  )

  recover_from-hides :
      (ctx : Context) (stack stack' : Bytes) (v v' : Panic) (s s' : World (StatusRecorder × W))
      → s.writer ≡ s'.writer
      → (recover_from out ctx stack (some v) s).1.writer
        ≡ (recover_from out ctx stack' (some v') s').1.writer
  unfolding log_panic
  recover_from-hides ctx stack stack' v v' s s' e = elim (Bool-cases s.writer.0.wrote_header) [
    | inl wrote ↦
        recover_from-wrote ctx stack v s wrote
        ∙ e
        ∙ sym (recover_from-wrote ctx stack' v' s' (rw (← e) wrote))
    | inr fresh ↦
        ap (λ p. p.1.writer) (recover_from-fresh ctx stack v s fresh)
        ∙ reply-writer ctx (log_panic out ctx stack v s)
        ∙ ap
            (λ w.
              (write_json (recorded out) 500 (some (new code_internal_error message_internal_error))
                (request_id_from (some ctx)) w).2)
            e
        ∙ sym (reply-writer ctx (log_panic out ctx stack' v' s'))
        ∙ sym (ap (λ p. p.1.writer) (recover_from-fresh ctx stack' v' s' (rw (← e) fresh)))
  ]

  abbrev start : World W → World (StatusRecorder × W)
  start s = record { writer = (new_recorder, s.writer); logs = s.logs; sequence = s.sequence }

  -- What the client receives after a panic does not depend on the panic's value, the stack or the
  -- log: two handlers that panic with the writer in one state have one reply.
  pub recover-hides :
      (stack stack' : Bytes) (next next' : Handler) (r : Request) (s s' : World W) (v v' : Panic)
      (t t' : World (StatusRecorder × W))
      → next _ (recorded out) r (start s) ≡ (some v, t)
      → next' _ (recorded out) r (start s') ≡ (some v', t')
      → t.writer ≡ t'.writer
      → (recover stack next W out r s).1.writer ≡ (recover stack' next' W out r s').1.writer
  unfolding recover
  recover-hides stack stack' next next' r s s' v v' t t' e e' same =
      rw (e, e', recover) (ap (λ w. w.1) (recover_from-hides r.context stack stack' v v' t t' same))

-- For every handler, the whole chain over the server's writer returns: net/http sees no panic.
pub wrap-returns :
    (unicode_lower : ℕ → ℕ) (t : Runtime) (next : Handler) (r : Request) (s : World Response)
    → (wrap unicode_lower t next Response server_writer r s).0 ≡ none
unfolding wrap request_id access_log
wrap-returns unicode_lower t next r s =
    recover-returns (recorded server_writer)
      (recorded-Accepts500 server_writer server_writer-Accepts500) t.stack next _ _

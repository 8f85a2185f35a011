-- ===== src/Middleware/Chain/Flush.antt =====
-- A flush before a panic: the access line and the client's status part.
use id_core.Prelude.{
  ℕ, true, false, Option, none, some, [], ◌∷◌, ◌++◌, ◌≡◌, refl, sym, subst, ap, ◌∙◌, arith,
}
use id_core.Go.Bytes.{Bytes, bytes}
use id_core.Go.Context.{Context}
use id_core.Go.Http.{Panic, Response, base_flush}
use id_core.Http.{ResponseWriter, Request, World, server_writer, Program, panic, flush, run, serve}
use id_core.Apperror.{
  CodedError, new, encode_response, to_response, code_internal_error, message_internal_error,
  json_content_type, encode_to, write_json,
}
use id_core.Logger.Context.{request_id_from}
use id_core.Middleware.Recorder.{new_recorder, recorded}
use id_core.Middleware.Recover.{log_panic, recover_from, recover}
use id_core.Middleware.RequestId.{header_x_request_id, identify, request_id}
use id_core.Middleware.Chain.{Runtime, wrap}
use id_core.Middleware.Chain.Panics.{
  recover_from-fresh, recorded-Accepts500, server_writer-Accepts500, reply-writer,
}
use id_core.Middleware.Chain.Agree.{Stack, stack_writer}
use id_core.Middleware.Chain.Status.{IsFresh, EndsWithAccess, client_status, finish-shown}
use id_core.Middleware.Chain.Faults.{marked, begun, access_log-line}

-- The status line of a 200 has gone out, and both recorders know of a 500.
record Split500 (s : Stack) : Type 0 where
  outer : s.0.wrote_header ≡ true
  inner : s.1.0 ≡ marked 500
  sent : s.1.1.wrote_header ≡ true
  status : s.1.1.status ≡ 200
  owned : s.1.1.hijacked ≡ false

record IsSent (w : Response) : Type 0 where
  sent : w.wrote_header ≡ true
  status : w.status ≡ 200
  owned : w.hijacked ≡ false

flush-IsSent : (w : Response) → IsFresh w → IsSent (base_flush w)
unfolding base_flush
flush-IsSent w fresh = ground arith

write-Split500 : (p : Bytes) (s : Stack) → Split500 s → Split500 (stack_writer.write p s).1
unfolding recorded server_writer
write-Split500 p s a = ground arith

encode_to-Split500 :
    (text : Option Bytes) (s : Stack) → Split500 s → Split500 (encode_to stack_writer text s).1
unfolding encode_to
encode_to-Split500 none s a = a
encode_to-Split500 (some text) s a = write-Split500 (text ++ 10 ∷ []) s a

-- WriteJSON when the status line is not refused.
write_json-writer :
    {W : Type 0} (out : ResponseWriter W) (status : ℕ) (e : Option CodedError) (id : Bytes)
    (w w' : W)
    → out.write_header status (out.set_header (bytes "Content-Type") json_content_type w)
      ≡ (none, w')
    → (write_json out status e id w).2 ≡ (encode_to out (encode_response (to_response e id)) w').1
unfolding write_json
write_json-writer out status e id w w' h =
    rw (ap (λ x. x.0) h, write_json)
      (ap (λ x. (encode_to out (encode_response (to_response e id)) x.1).1) h)

abbrev labelled : Response → Response
labelled w = server_writer.set_header (bytes "Content-Type") json_content_type w

labelled-IsSent : (w : Response) → IsSent w → IsSent (labelled w)
unfolding server_writer
labelled-IsSent w a = record { sent = a.sent; status = a.status; owned = a.owned }

late500 :
    (w : Response)
    → IsSent w
    → stack_writer.write_header 500 (
        stack_writer.set_header
          (bytes "Content-Type")
          json_content_type
          (new_recorder, (new_recorder, w)))
      ≡ (none, (marked 500, (marked 500, labelled w)))
unfolding recorded server_writer
late500 w a = ground (arith, a.sent, a.owned)

late500-Split500 : (w : Response) → IsSent w → Split500 (marked 500, (marked 500, w))
late500-Split500 w a = record {
  outer = refl;
  inner = refl;
  sent = a.sent;
  status = a.status;
  owned = a.owned;
}

recover_from-Split500 :
    (ctx : Context) (stack : Bytes) (v : Panic) (s : World Stack) (w : Response)
    → s.writer ≡ (new_recorder, (new_recorder, w))
    → IsSent w
    → Split500 (recover_from (recorded server_writer) ctx stack (some v) s).1.writer
unfolding log_panic
recover_from-Split500 ctx stack v s w e a =
    let out = recorded server_writer in
    let ok500 = recorded-Accepts500 server_writer server_writer-Accepts500 in
    let coded = some (new code_internal_error message_internal_error) in
    subst Split500
      (sym (
        ap (λ x. x.1.writer)
          (recover_from-fresh out ok500 ctx stack v s (ap (λ x. x.0.wrote_header) e))
        ∙ reply-writer out ok500 ctx (log_panic out ctx stack v s)
        ∙ ap (λ x. (write_json stack_writer 500 coded (request_id_from (some ctx)) x).2) e
        ∙ write_json-writer stack_writer 500 coded (request_id_from (some ctx)) _ _ (late500 w a)))
      (encode_to-Split500 _ _ (late500-Split500 (labelled w) (labelled-IsSent w a)))

Split500-client : (s : Stack) → Split500 s → client_status s.1.1 ≡ 200
Split500-client s a = finish-shown s.1.1 a.owned ∙ rw a.sent a.status

-- A handler that flushes and then panics.
abbrev pub flushed : Panic → Request → Program
flushed v r = flush (panic v)

abbrev left_by_recover : Bytes → Panic → Request → World Response → Stack
left_by_recover stack v r s =
    (recover_from (recorded server_writer) r.context stack
      (run stack_writer r.context (flushed v r) (begun s)).0
      (run stack_writer r.context (flushed v r) (begun s)).1).1.writer

recover-flushed :
    (stack : Bytes) (v : Panic) (r : Request) (s : World Response)
    → IsFresh s.writer
    → Split500 (left_by_recover stack v r s)
unfolding run recorded server_writer
recover-flushed stack v r s fresh =
    recover_from-Split500 r.context stack v _ (base_flush s.writer) refl
      (flush-IsSent s.writer fresh)

-- A handler that flushes and then panics: the client receives the status 200, and the access line
-- shows 500.
pub wrap-flushed :
    (unicode_lower : ℕ → ℕ) (t : Runtime) (v : Panic) (r : Request) (s : World Response)
    → IsFresh s.writer
    → (client_status (wrap unicode_lower t (serve (flushed v)) Response server_writer r s).1.writer
        ≡ 200)
      × EndsWithAccess unicode_lower
          (identify t.process t.uuid t.nanos r s.sequence).0
          500
          t.elapsed
          (wrap unicode_lower t (serve (flushed v)) Response server_writer r s).1.logs
unfolding wrap request_id server_writer recover serve
wrap-flushed unicode_lower t v r s fresh =
    let q = (identify t.process t.uuid t.nanos r s.sequence).0 in
    let s' : World Response = record s {
      writer =
          server_writer.set_header header_x_request_id
            (identify t.process t.uuid t.nanos r s.sequence).1 s.writer;
      sequence = (identify t.process t.uuid t.nanos r s.sequence).2;
    } in
    let w = (left_by_recover t.stack v q s').1.1 in
    let split = recover-flushed t.stack v q s' fresh in
    let (writer, line) =
      access_log-line unicode_lower t.elapsed (recover t.stack (serve (flushed v))) q s' _ w
        (ap (λ k. (k, w)) split.inner) in
    (ap client_status writer ∙ Split500-client _ split, line)

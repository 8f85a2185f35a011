-- ===== src/Middleware/Chain/Faults.antt =====
-- Codes that net/http refuses: the access line and the client's status part.
use id_core.Prelude.{ℕ, true, false, none, some, ◌≡◌, refl, ap, ◌∙◌, arith}
use id_core.Go.Bytes.{Bytes, bytes}
use id_core.Go.Context.{Context}
use id_core.Go.Http.{Panic, other_value, Response, is_valid_code}
use id_core.Http.{
  ResponseWriter, Request, World, Handler, server_writer, Program, write_header, run, serve,
}
use id_core.Logger.Output.Ids.{log-append}
use id_core.Middleware.Recorder.{StatusRecorder, new_recorder, recorded}
use id_core.Middleware.Recover.{recover_from, recover}
use id_core.Middleware.RequestId.{header_x_request_id, identify, request_id}
use id_core.Middleware.AccessLog.{access_log}
use id_core.Middleware.Chain.{Runtime, wrap}
use id_core.Middleware.Chain.Panics.{
  recover_from-wrote, recorded-Accepts500, server_writer-Accepts500,
}
use id_core.Middleware.Chain.Agree.{Stack, stack_writer}
use id_core.Middleware.Chain.Status.{IsFresh, EndsWithAccess, client_status, finish-shown}

-- A handler that calls WriteHeader with a code below 100 or above 999.
abbrev pub refused : ℕ → Program → Request → Program
refused code rest r = write_header code rest

abbrev pub marked : ℕ → StatusRecorder
marked code = record { status = code; wrote_header = true }

refuse :
    (code : ℕ) (w : Response)
    → is_valid_code code ≡ false
    → IsFresh w
    → stack_writer.write_header code (new_recorder, (new_recorder, w))
      ≡ (some (other_value (bytes "invalid WriteHeader code")), (marked code, (marked code, w)))
unfolding recorded server_writer
refuse code w bad fresh = ground arith

abbrev pub begun : World Response → World Stack
begun s = record {
  writer = (new_recorder, (new_recorder, s.writer));
  logs = s.logs;
  sequence = s.sequence;
}

run-stops :
    {W : Type 0} (out : ResponseWriter W) (ctx : Context) (code : ℕ) (rest : Program) (s : World W)
    (v : Panic) (w : W)
    → out.write_header code s.writer ≡ (some v, w)
    → run out ctx (write_header code rest) s ≡ (some v, record s { writer = w })
unfolding run
run-stops out ctx code rest s v w e =
    rw (ap (λ x. x.0) e, run) (ap (λ x. (some v, record s { writer = x.1 })) e)

run-refused :
    (ctx : Context) (code : ℕ) (rest : Program) (s : World Response)
    → is_valid_code code ≡ false
    → IsFresh s.writer
    → run stack_writer ctx (write_header code rest) (begun s) ≡ (
      some (other_value (bytes "invalid WriteHeader code")),
      record {
        writer = (marked code, (marked code, s.writer));
        logs = s.logs;
        sequence = s.sequence;
      },
    )
run-refused ctx code rest s bad fresh =
    run-stops stack_writer ctx code rest (begun s) _ _ (refuse code s.writer bad fresh)

recover-refused :
    (stack : Bytes) (code : ℕ) (rest : Program) (r : Request) (s : World Response)
    → is_valid_code code ≡ false
    → IsFresh s.writer
    → (recover stack (serve (refused code rest)) _ (recorded server_writer) r (record {
      writer = (new_recorder, s.writer);
      logs = s.logs;
      sequence = s.sequence;
    })).1.writer
      ≡ (marked code, s.writer)
unfolding recover serve
recover-refused stack code rest r s bad fresh =
    ap (λ x. (recover_from (recorded server_writer) r.context stack x.0 x.1).1.writer.1)
      (run-refused r.context code rest s bad fresh)
    ∙ ap (λ w. w.1)
        (recover_from-wrote (recorded server_writer)
          (recorded-Accepts500 server_writer server_writer-Accepts500) r.context stack _ _ refl)

-- What the access log makes of the state that its next handler leaves.
pub access_log-line :
    (unicode_lower : ℕ → ℕ) (elapsed : ℕ) (next : Handler) (r : Request) (s : World Response)
    (recorder : StatusRecorder) (w : Response)
    → (next _ (recorded server_writer) r (record {
      writer = (new_recorder, s.writer);
      logs = s.logs;
      sequence = s.sequence;
    })).1.writer
      ≡ (recorder, w)
    → ((access_log unicode_lower elapsed next Response server_writer r s).1.writer ≡ w)
      × EndsWithAccess unicode_lower r recorder.status elapsed
          (access_log unicode_lower elapsed next Response server_writer r s).1.logs
unfolding access_log
access_log-line unicode_lower elapsed next r s recorder w e =
    let after =
      (next _ (recorded server_writer) r
        (record { writer = (new_recorder, s.writer); logs = s.logs; sequence = s.sequence })).1 in
    (
      ap (λ k. k.1) e,
      rw (← ap (λ k. k.0.status) e) (after.logs, log-append (some r.context) _ _ none _ after.logs),
    )

-- A handler whose first call is WriteHeader with a code below 100 or above 999, whatever it would
-- do next: the client receives an empty response of status 200, and the access line shows the
-- refused code.
pub wrap-refused_code :
    (unicode_lower : ℕ → ℕ) (t : Runtime) (code : ℕ) (rest : Program) (r : Request)
    (s : World Response)
    → is_valid_code code ≡ false
    → IsFresh s.writer
    → (client_status
          (wrap unicode_lower t (serve (refused code rest)) Response server_writer r s).1.writer
        ≡ 200)
      × ((wrap unicode_lower t (serve (refused code rest)) Response server_writer r s).1.writer.body
          ≡ s.writer.body)
      × EndsWithAccess unicode_lower
          (identify t.process t.uuid t.nanos r s.sequence).0
          code
          t.elapsed
          (wrap unicode_lower t (serve (refused code rest)) Response server_writer r s).1.logs
unfolding wrap request_id server_writer
wrap-refused_code unicode_lower t code rest r s bad fresh =
    let q = (identify t.process t.uuid t.nanos r s.sequence).0 in
    let s' : World Response = record s {
      writer =
          server_writer.set_header header_x_request_id
            (identify t.process t.uuid t.nanos r s.sequence).1 s.writer;
      sequence = (identify t.process t.uuid t.nanos r s.sequence).2;
    } in
    let (writer, line) =
      access_log-line unicode_lower t.elapsed (recover t.stack (serve (refused code rest))) q s'
        (marked code) s'.writer (recover-refused t.stack code rest q s' bad fresh) in
    (
      (ap client_status writer ∙ finish-shown s'.writer fresh.1) ∙ rw fresh.0 refl,
      ap (λ w. w.body) writer,
      line,
    )

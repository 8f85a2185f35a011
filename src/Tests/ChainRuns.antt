-- ===== src/Tests/ChainRuns.antt =====
-- The chain of the middleware on concrete requests.
use id_core.Prelude.{ℕ, none, some, [], ◌≡◌, ◌≢◌, refl}
use id_core.Go.Bytes.{bytes}
use id_core.Go.Context.{background}
use id_core.Go.Http.{Panic, error_value, other_value, Response, fresh_response, finish_request}
use id_core.Http.{
  Request, World, server_writer, Program, done, panic, write_header, write, run, serve,
}
use id_core.Middleware.Recorder.{StatusRecorder, new_recorder, recorded}
use id_core.Middleware.RequestId.{identify, request_id}
use id_core.Middleware.AccessLog.{access_log}
use id_core.Apperror.{new, to_response, encode_response, encode_to, write_json}
use id_core.Middleware.Recover.{log_panic, reply_internal_error, recover_from, recover}
use id_core.Middleware.Chain.{Runtime, wrap}
use id_core.Middleware.Chain.Panics.{server_writer-Accepts500, recover-hides, wrap-returns}
use id_core.Middleware.Chain.Agree.{IsPlain}
use id_core.Middleware.Chain.Status.{client_status, EndsWithAccess, wrap-Ends}
use id_core.Middleware.Chain.Logs.{Extends, wrap-Extends}
use id_core.Middleware.Chain.Faults.{refused, wrap-refused_code}
use id_core.Middleware.Chain.Flush.{flushed, wrap-flushed}

abbrev same_rune : ℕ → ℕ
same_rune r = r

abbrev runtime : Runtime
runtime = record {
  process = record { host = bytes "core-1"; pid = 42 };
  uuid = some (bytes "0198");
  nanos = 7;
  elapsed = 15;
  stack = bytes "main.go:1";
}

abbrev request : Request
request = record {
  method = bytes "GET";
  url = some (record { escaped_path = bytes "/authorize"; raw_query = bytes "code=x" });
  header = [];
  context = background;
}

abbrev begin : World Response
begin = record { writer = fresh_response []; logs = []; sequence = 0 }

abbrev failing : Panic → Request → Program
failing v r = panic v

abbrev teapot : Request → Program
teapot r = write_header 418 (write (bytes "short") (λ _. panic (other_value (bytes "boom"))))

panic_gives_500 :
    client_status
      (wrap same_rune runtime
        (serve (failing (error_value (bytes "boom"))))
        Response
        server_writer
        request
        begin).1.writer
    ≡ 500
unfolding wrap serve server_writer finish_request request_id access_log recover recover_from
    reply_internal_error write_json recorded log_panic encode_to encode_response to_response new
panic_gives_500 = refl

abbrev inside : World (StatusRecorder × Response)
inside = record { writer = (new_recorder, fresh_response []); logs = []; sequence = 0 }

fails : (v : Panic) → serve (failing v) _ (recorded server_writer) request inside ≡ (some v, inside)
unfolding serve run
fails v = refl

recover-hides_example :
    (recover
      (bytes "main.go:1")
      (serve (failing (error_value (bytes "boom"))))
      Response
      server_writer
      request
      begin).1.writer
    ≡ (recover
        (bytes "main.go:2")
        (serve (failing (other_value (bytes "bang"))))
        Response
        server_writer
        request
        begin).1.writer
recover-hides_example =
    recover-hides server_writer server_writer-Accepts500 (bytes "main.go:1") (bytes "main.go:2")
      (serve (failing (error_value (bytes "boom")))) (serve (failing (other_value (bytes "bang"))))
      request begin begin (error_value (bytes "boom")) (other_value (bytes "bang")) inside inside
      (fails (error_value (bytes "boom"))) (fails (other_value (bytes "bang"))) refl

wrap-returns_example :
    (wrap same_rune runtime (serve teapot) Response server_writer request begin).0 ≡ none
wrap-returns_example = wrap-returns same_rune runtime (serve teapot) request begin

teapot-IsPlain : (r : Request) → IsPlain (teapot r)
teapot-IsPlain r = ((refl, refl), λ _. tt)

wrap-Ends_example :
    EndsWithAccess same_rune
      (identify runtime.process runtime.uuid runtime.nanos request 0).0
      (client_status
        (wrap same_rune runtime (serve teapot) Response server_writer request begin).1.writer)
      15
      (wrap same_rune runtime (serve teapot) Response server_writer request begin).1.logs
wrap-Ends_example = wrap-Ends same_rune runtime teapot teapot-IsPlain request begin (refl, refl)

wrap-Extends_example :
    ((identify runtime.process runtime.uuid runtime.nanos request 0).1 ≢ [])
    × Extends
        (identify runtime.process runtime.uuid runtime.nanos request 0).1
        []
        (wrap same_rune runtime (serve teapot) Response server_writer request begin).1.logs
wrap-Extends_example = wrap-Extends same_rune runtime teapot request begin (λ e. cc)

wrap-refused_code_example :
    (client_status
        (wrap same_rune runtime
          (serve (refused 1000 done))
          Response
          server_writer
          request
          begin).1.writer
      ≡ 200)
    × ((wrap same_rune runtime
          (serve (refused 1000 done))
          Response
          server_writer
          request
          begin).1.writer.body
        ≡ [])
    × EndsWithAccess same_rune
        (identify runtime.process runtime.uuid runtime.nanos request 0).0
        1000
        15
        (wrap same_rune runtime
          (serve (refused 1000 done))
          Response
          server_writer
          request
          begin).1.logs
wrap-refused_code_example =
    wrap-refused_code same_rune runtime 1000 done request begin refl (refl, refl)

wrap-flushed_example :
    (client_status
        (wrap same_rune runtime
          (serve (flushed (other_value (bytes "boom"))))
          Response
          server_writer
          request
          begin).1.writer
      ≡ 200)
    × EndsWithAccess same_rune
        (identify runtime.process runtime.uuid runtime.nanos request 0).0
        500
        15
        (wrap same_rune runtime
          (serve (flushed (other_value (bytes "boom"))))
          Response
          server_writer
          request
          begin).1.logs
wrap-flushed_example =
    wrap-flushed same_rune runtime (other_value (bytes "boom")) request begin (refl, refl)

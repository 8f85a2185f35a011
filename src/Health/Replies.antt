-- ===== src/Health/Replies.antt =====
-- What the readiness check shows of the database, and the two handlers of /health.
use id_core.Prelude.{Option, none, some, [], ◌∷◌, ◌≡◌, refl, sym, ap, ◌∙◌}
use id_core.Go.Bytes.{Bytes, bytes}
use id_core.Go.Context.{Context}
use id_core.Go.Http.{Panic}
use id_core.Http.{Request, ResponseWriter, World, done, write, server_writer, run}
use id_core.Health.{
  PingError, status_body, json_utf8, warn_write_error, handler, health_handler, ready_handler,
}
use id_core.Oidc.Discovery.Caching.{sent_with, run_fresh}

-- The reply on a connection without faults.
ready-sent :
    (ctx : Context) (r : Request) (ping : Option PingError)
    → run_fresh ctx (ready_handler ping r) ≡ elim ping [
      | none ↦ sent_with 200 ((bytes "Content-Type", json_utf8) ∷ []) (status_body (bytes "ok"))
      | some e ↦
          sent_with 503 ((bytes "Content-Type", json_utf8) ∷ []) (status_body (bytes "unavailable"))
    ]
unfolding ready_handler run server_writer
ready-sent ctx r none = refl
ready-sent ctx r (some e) = refl

-- The readiness check answers 200 if the ping succeeds and 503 if it fails, on a connection without
-- faults, and the reply to a failure does not depend on the error.
ready-hides :
    (ctx : Context) (r : Request) (e f : PingError)
    → ((run_fresh ctx (ready_handler none r)).status ≡ 200)
      × ((run_fresh ctx (ready_handler (some e) r)).status ≡ 503)
      × (run_fresh ctx (ready_handler (some e) r) ≡ run_fresh ctx (ready_handler (some f) r))
ready-hides ctx r e f = (
  ap (λ w. w.status) (ready-sent ctx r none),
  ap (λ w. w.status) (ready-sent ctx r (some e)),
  ready-sent ctx r (some e) ∙ sym (ready-sent ctx r (some f)),
)

module _ {W : Type 0} (rw : ResponseWriter W) (ctx : Context) where
  -- Two runs that differ in their log only, and the first leaves the log alone.
  abbrev pub Quieter : World W → Option Panic × World W → Option Panic × World W → Type 0
  Quieter s quiet loud =
      (quiet.0 ≡ loud.0) × (quiet.1.writer ≡ loud.1.writer) × (quiet.1.logs ≡ s.logs)

  body-Quieter :
      (message : Bytes) (s : World W)
      → Quieter s
          (run rw ctx (write (status_body (bytes "ok")) (λ _. done)) s)
          (run rw ctx (write (status_body (bytes "ok")) (warn_write_error message)) s)
  unfolding run
  body-Quieter message s =
      let (e, w) = rw.write (status_body (bytes "ok")) s.writer in
      let (same, written) = warned e (record s { writer = w }) in (same, written, refl)
    where
      warned :
          (e : Option Bytes) (u : World W)
          → (none ≡ (run rw ctx (warn_write_error message e) u).0)
            × (u.writer ≡ (run rw ctx (warn_write_error message e) u).1.writer)
      warned none u = (refl, refl)
      warned (some e) u = (refl, refl)

  -- A panic of WriteHeader ends both.
  status-Quieter :
      (p : Option Panic) (s u : World W) (quiet loud : Option Panic × World W)
      → u.logs ≡ s.logs
      → Quieter s quiet loud
      → Quieter s
          (elim p [ none ↦ quiet | some v ↦ (some v, u) ])
          (elim p [ none ↦ loud | some v ↦ (some v, u) ])
  status-Quieter none s u quiet loud e h = h
  status-Quieter (some v) s u quiet loud e h = (refl, refl, e)

  -- Over every writer, Handler answers as NewHandler's handler does, panics included, and adds nothing
  -- to the log.
  handler-Quieter :
      (r : Request) (s : World W)
      → Quieter s (run rw ctx (handler r) s) (run rw ctx (health_handler r) s)
  unfolding run handler health_handler
  handler-Quieter r s =
      let (p, w) = rw.write_header 200 (rw.set_header (bytes "Content-Type") json_utf8 s.writer) in
      status-Quieter p s (record s { writer = w }) _ _ refl
        (body-Quieter (bytes "/health 応答の書き込みに失敗しました") (record s { writer = w }))

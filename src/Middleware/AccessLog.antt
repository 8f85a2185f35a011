-- ===== src/Middleware/AccessLog.antt =====
-- AccessLog of core/internal/middleware/access_log.go.
use id_core.Prelude.{ℕ, none, some, List, [], ◌∷◌, ◌++◌, leb, if◌then◌else◌}
use id_core.Go.Bytes.{Bytes, bytes}
use id_core.Http.{Handler, Request}
use id_core.Logger.Output.{Level, info, warn, error, Attr, text, int, micros, log}
use id_core.Middleware.Recorder.{new_recorder, recorded}
use id_core.Middleware.Query.{redacted_path}
use id_core.Middleware.RequestId.{client_request_id_from}

unfoldable pub level_from_status : ℕ → Level
level_from_status status = if leb 500 status then error else if leb 400 status then warn else info

-- The additional attribute, if the request came with an id that was refused.
abbrev pub client_attr : Bytes → List Attr
client_attr [] = []
client_attr (c ∷ s) = (bytes "client_request_id", text (c ∷ s)) ∷ []

module _ (unicode_lower : ℕ → ℕ) where
  -- The attributes of the line; the duration stands in microseconds.
  unfoldable pub access_attrs : Request → ℕ → ℕ → List Attr
  access_attrs r status elapsed =
      ((bytes "msg_kind", text (bytes "access"))
        ∷ (bytes "method", text r.method)
        ∷ (bytes "path", text (redacted_path unicode_lower r.url))
        ∷ (bytes "status", int status)
        ∷ (bytes "duration_ms", micros elapsed)
        ∷ [])
      ++ client_attr (client_request_id_from (some r.context))

  -- The deferred function runs whether the next handler returns or panics, and a panic goes on.
  unfoldable pub access_log : ℕ → Handler → Handler
  access_log elapsed next W rw r s =
      let (p, t) =
        next _ (recorded rw) r
          (record { writer = (new_recorder, s.writer); logs = s.logs; sequence = s.sequence }) in
      let (recorder, w) = t.writer in
      (
        p,
        record {
          writer = w;
          logs =
              log (some r.context) (level_from_status recorder.status) (bytes "access") none
                (access_attrs r recorder.status elapsed) t.logs;
          sequence = t.sequence;
        },
      )

-- ===== src/Logger/Output/Ids.antt =====
-- Which ids a record carries.
use id_core.Prelude.{Option, some, List, [], ◌∷◌, ◌++◌, ◌≡◌, refl, ◌≢◌}
use id_core.Go.Bytes.{Bytes, bytes}
use id_core.Go.Context.{Context}
use id_core.Logger.Context.{request_id_from, event_id_from}
use id_core.Logger.Output.{
  Level, debug, info, warn, error, Attr, text, LogRecord, log_record, log, id_attr, error_attr,
}

-- No level is filtered out: every call appends one record.
pub log-append :
    (ctx : Option Context) (level : Level) (msg : Bytes) (e : Option Bytes) (args : List Attr)
    (logs : List LogRecord)
    → log ctx level msg e args logs ≡ logs ++ log_record ctx level msg e args ∷ []
unfolding log
log-append ctx debug msg e args logs = refl
log-append ctx info msg e args logs = refl
log-append ctx warn msg e args logs = refl
log-append ctx error msg e args logs = refl

-- A record carries the request id `id` in front of all else.
abbrev pub Carries : Bytes → LogRecord → Type 0
Carries id r = (rest : List Attr) × (r.attrs ≡ (bytes "request_id", text id) ∷ rest)

id_attr-ne : (key id : Bytes) → id ≢ [] → id_attr key id ≡ (key, text id) ∷ []
id_attr-ne key [] h = absurd (h refl)
id_attr-ne key (c ∷ s) h = refl

pub log_record-Carries :
    (ctx : Context) (level : Level) (msg : Bytes) (e : Option Bytes) (args : List Attr)
    → request_id_from (some ctx) ≢ []
    → Carries (request_id_from (some ctx)) (log_record (some ctx) level msg e args)
unfolding log_record
log_record-Carries ctx level msg e args h = (
  id_attr (bytes "event_id") (event_id_from (some ctx)) ++ (args ++ error_attr e),
  rw (id_attr-ne (bytes "request_id") (request_id_from (some ctx)) h),
)

-- ===== src/Http.antt =====
-- http.ResponseWriter and http.Handler as interfaces, and the handlers that a proof ranges over.
use id_core.Prelude.{ℕ, Bool, Option, none, some, List}
use id_core.Go.Bytes.{Bytes}
use id_core.Go.Context.{Context}
use id_core.Go.Http.{
  Headers, Panic, Response, set_header as set_key, base_write_header, base_write, base_flush,
  base_hijack,
}
use id_core.Logger.Output.{Level, Attr, LogRecord, log as log_to}

-- http.ResponseWriter with http.Flusher and http.Hijacker. WriteHeader may panic, Write returns
-- its error, and Hijack says whether it took the connection.
pub record ResponseWriter (W : Type 0) : Type 0 where
  pub set_header : Bytes → Bytes → W → W
  pub write_header : ℕ → W → Option Panic × W
  pub write : Bytes → W → Option Bytes × W
  pub flush : W → W
  pub hijack : W → Bool × W

-- The writer that net/http hands to the outermost handler.
unfoldable pub server_writer : ResponseWriter Response
unfolding set_key base_write_header base_write base_flush base_hijack
server_writer = record {
  set_header = λ k v w. record w { header = set_key k v w.header };
  write_header = base_write_header;
  write = base_write;
  flush = base_flush;
  hijack = base_hijack;
}

-- url.URL: EscapedPath() and RawQuery.
pub record Url : Type 0 where
  pub escaped_path : Bytes
  pub raw_query : Bytes

pub record Request : Type 0 where
  pub method : Bytes
  pub url : Option Url
  pub header : Headers
  pub context : Context

-- What a handler changes: the state of its writer, the log, and the counter of the fallback ids.
pub record World (W : Type 0) : Type 0 where
  pub writer : W
  pub logs : List LogRecord
  pub sequence : ℕ

-- A handler returns (`none`) or panics, over any writer.
abbrev pub Handler : Type 1
Handler = (W : Type 0) → ResponseWriter W → Request → World W → Option Panic × World W

-- A handler's body, call by call.
pub data Program : Type 0 where
  done : Program
  panic : Panic → Program
  set_header : Bytes → Bytes → Program → Program
  write_header : ℕ → Program → Program
  write : Bytes → (Option Bytes → Program) → Program
  flush : Program → Program
  hijack : (Bool → Program) → Program
  log : Level → Bytes → Option Bytes → List Attr → Program → Program

module _ {W : Type 0} (rw : ResponseWriter W) (ctx : Context) where
  unfoldable pub run : Program → World W → Option Panic × World W
  unfolding log_to
  run done s = (none, s)
  run (panic v) s = (some v, s)
  run (set_header k v rest) s = run rest (record s { writer = rw.set_header k v s.writer })
  run (write_header code rest) s =
      let (p, w) = rw.write_header code s.writer in
      let next = run rest (record s { writer = w }) in
      elim p [ none ↦ next | some v ↦ (some v, record s { writer = w }) ]
  run (write p rest) s = let (e, w) = rw.write p s.writer in run (rest e) (record s { writer = w })
  run (flush rest) s = run rest (record s { writer = rw.flush s.writer })
  run (hijack rest) s =
      let (taken, w) = rw.hijack s.writer in run (rest taken) (record s { writer = w })
  run (log level msg e args rest) s =
      run rest (record s { logs = log_to (some ctx) level msg e args s.logs })

unfoldable pub serve : (Request → Program) → Handler
unfolding run
serve body W rw r s = run rw r.context (body r) s

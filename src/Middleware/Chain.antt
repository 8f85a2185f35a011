-- ===== src/Middleware/Chain.antt =====
-- The order of the middleware in core/internal/server/server.go: request_id outermost, then
-- access_log, then recover, then the handler.
pub mod Panics
pub mod Agree
pub mod Status
pub mod Logs
pub mod Faults
pub mod Flush
use id_core.Prelude.{ℕ, Option}
use id_core.Go.Bytes.{Bytes}
use id_core.Http.{Handler}
use id_core.Middleware.RequestId.{Process, request_id}
use id_core.Middleware.AccessLog.{access_log}
use id_core.Middleware.Recover.{recover}

-- What the runtime gives one request: the result of uuid.NewV7, the clock, the duration in
-- microseconds, and the text of the stack.
pub record Runtime : Type 0 where
  pub process : Process
  pub uuid : Option Bytes
  pub nanos : ℕ
  pub elapsed : ℕ
  pub stack : Bytes

unfoldable pub wrap : (ℕ → ℕ) → Runtime → Handler → Handler
wrap unicode_lower t handler =
    request_id t.process t.uuid t.nanos
      (access_log unicode_lower t.elapsed (recover t.stack handler))

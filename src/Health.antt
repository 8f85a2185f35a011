-- ===== src/Health.antt =====
-- core/internal/health: the handlers of /health, /health/live and /health/ready.
pub mod Replies
use id_core.Prelude.{ℕ, Bool, true, false, Option, none, some, List, [], ◌∷◌, ◌++◌, if◌then◌else◌}
use id_core.Go.Bytes.{Bytes, bytes}
use id_core.Go.Json.{json_string, json_object}
use id_core.Http.{Request, Program, done, set_header, write_header, write, log}
use id_core.Logger.Output.{error, warn, text, duration}

-- The error of pool.Ping: its text, and whether it is context.DeadlineExceeded.
pub record PingError : Type 0 where
  pub deadline_exceeded : Bool
  pub message : Bytes

-- `{"status":"…"}` with the newline of Encode.
unfoldable pub status_body : Bytes → Bytes
unfolding json_string
status_body status = json_object ((bytes "status", json_string status) ∷ []) ++ 10 ∷ []

-- An error of the body is logged.
abbrev pub warn_write_error : Bytes → Option Bytes → Program
warn_write_error message none = done
warn_write_error message (some e) = log warn message none ((bytes "error", text e) ∷ []) done

abbrev pub ready_timeout : ℕ
ready_timeout = 2000000000

abbrev pub json_utf8 : Bytes
json_utf8 = bytes "application/json; charset=utf-8"

unfoldable pub health_handler : Request → Program
health_handler r = set_header (bytes "Content-Type") json_utf8 (
    write_header 200
      (write (status_body (bytes "ok")) (warn_write_error (bytes "/health 応答の書き込みに失敗しました"))))

-- Handler, without a logger; the error of the body is dropped.
unfoldable pub handler : Request → Program
handler r =
    set_header (bytes "Content-Type") json_utf8
      (write_header 200 (write (status_body (bytes "ok")) (λ _. done)))

unfoldable pub live_handler : Request → Program
live_handler r = set_header (bytes "Content-Type") json_utf8 (
    write_header 200
      (write (status_body (bytes "ok")) (warn_write_error (bytes "/health/live 応答の書き込みに失敗しました"))))

-- The log text for an error of the ping.
abbrev pub ping_failure : PingError → Bytes
ping_failure e =
    if e.deadline_exceeded
    then bytes "DB readiness check timed out"
    else bytes "DB readiness check failed"

-- `ping` is the result of pool.Ping under the timeout.
unfoldable pub ready_handler : Option PingError → Request → Program
ready_handler none r = set_header (bytes "Content-Type") json_utf8 (
    write_header 200 (
      write (status_body (bytes "ok"))
        (warn_write_error (bytes "/health/ready (200) 応答の書き込みに失敗しました"))))
ready_handler (some e) r = set_header (bytes "Content-Type") json_utf8 (
    log error (ping_failure e) (some e.message) ((bytes "timeout", duration ready_timeout) ∷ []) (
      write_header 503 (
        write (status_body (bytes "unavailable"))
          (warn_write_error (bytes "/health/ready (503) 応答の書き込みに失敗しました")))))

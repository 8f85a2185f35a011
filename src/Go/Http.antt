-- ===== src/Go/Http.antt =====
-- net/http as the handlers see it: the server's ResponseWriter of one request.
use id_core.Prelude.{
  ℕ, Bool, true, false, not, ◌&&◌, ◌||◌, Option, none, some, List, [], ◌∷◌, ◌++◌, leb, ◌==◌,
  if◌then◌else◌,
}
use id_core.Go.Bytes.{Bytes, bytes, bytes_eq}

-- Headers with one value to a key; keys are in canonical form.
abbrev pub Headers : Type 0
Headers = List (Bytes × Bytes)

-- Header.Set.
unfoldable pub set_header : Bytes → Bytes → Headers → Headers
unfolding bytes_eq
set_header k v [] = (k, v) ∷ []
set_header k v ((j, w) ∷ h) = if bytes_eq j k then (j, v) ∷ h else (j, w) ∷ set_header k v h

-- Header.Get: a missing key gives the empty string.
unfoldable pub get_header : Bytes → Headers → Bytes
unfolding bytes_eq
get_header k [] = []
get_header k ((j, w) ∷ h) = if bytes_eq j k then w else get_header k h

-- A panic with an error value, or with another value and its text under %v.
pub data Panic : Type 0 where
  error_value : Bytes → Panic
  other_value : Bytes → Panic

-- `sent` is the header as it stood when the status line was written. `informational` lists the
-- 1xx responses. `faults` holds, write by write, the error of
-- the connection, if any (past its end there is none).
pub record Response : Type 0 where
  pub header : Headers
  pub wrote_header : Bool
  pub status : ℕ
  pub sent : Headers
  pub body : Bytes
  pub informational : List ℕ
  pub faults : List (Option Bytes)
  pub hijacked : Bool

abbrev pub fresh_response : List (Option Bytes) → Response
fresh_response faults = record {
  header = [];
  wrote_header = false;
  status = 0;
  sent = [];
  body = [];
  informational = [];
  faults = faults;
  hijacked = false;
}

-- checkWriteHeaderCode.
abbrev pub is_valid_code : ℕ → Bool
is_valid_code code = leb 100 code && leb code 999

abbrev pub is_informational : ℕ → Bool
is_informational code = leb 100 code && leb code 199 && not (code == 101)

unfoldable pub base_write_header : ℕ → Response → Option Panic × Response
base_write_header code w =
    if w.hijacked || w.wrote_header
    then (none, w)
    else if not (is_valid_code code)
    then (some (other_value (bytes "invalid WriteHeader code")), w)
    else if is_informational code
    then (none, record w { informational = w.informational ++ code ∷ [] })
    else (none, record w { wrote_header = true; status = code; sent = w.header })

abbrev pub body_allowed : ℕ → Bool
body_allowed status = not ((leb 100 status && leb status 199) || status == 204 || status == 304)

-- The write itself, once the status line is out, and its error.
abbrev pub send : Bytes → List (Option Bytes) → Response → Option Bytes × Response
send p [] w = (none, record w { body = w.body ++ p })
send p (some e ∷ faults) w = (some e, record w { faults = faults })
send p (none ∷ faults) w = (none, record w { body = w.body ++ p; faults = faults })

-- http.ErrBodyNotAllowed and http.ErrHijacked.
abbrev pub err_body_not_allowed : Bytes
err_body_not_allowed = bytes "http: request method or response status code does not allow body"

abbrev pub err_hijacked : Bytes
err_hijacked = bytes "http: connection has been hijacked"

abbrev pub write_body : Bytes → Response → Option Bytes × Response
write_body p w = if body_allowed w.status then send p w.faults w else (some err_body_not_allowed, w)

unfoldable pub base_write : Bytes → Response → Option Bytes × Response
unfolding base_write_header
base_write p w =
    if w.hijacked
    then (some err_hijacked, w)
    else let (_, w') = base_write_header 200 w in write_body p w'

unfoldable pub base_flush : Response → Response
unfolding base_write_header
base_flush w = (base_write_header 200 w).1

-- What the server does when the handler returns: a response that was never written is an empty 200.
unfoldable pub finish_request : Response → Response
unfolding base_write_header
finish_request w = (base_write_header 200 w).1

-- Hijack of an HTTP/1 connection; a second one is refused.
unfoldable pub base_hijack : Response → Bool × Response
base_hijack w = if w.hijacked then (false, w) else (true, record w { hijacked = true })

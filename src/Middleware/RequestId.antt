-- ===== src/Middleware/RequestId.antt =====
-- core/internal/middleware/request_id.go.
pub mod RuneParts
pub mod Sanitize
pub mod Fallback
pub mod Schedules
use id_core.Prelude.{
  ℕ, ◌+◌, ◌-◌, ◌^◌, ◌%◌, Bool, true, false, not, ◌&&◌, Option, none, some, List, [], ◌∷◌, ◌++◌, all,
  ltb, leb, length, if◌then◌else◌,
}
use id_core.Go.Bytes.{Bytes, bytes, encode_rune, is_empty}
use id_core.Go.Utf8.{runes}
use id_core.Go.Strconv.{hex_four, decimal}
use id_core.Go.Any.{str}
use id_core.Go.Context.{Context, CtxKey, middleware_key, with_value, value}
use id_core.Go.Http.{Panic, get_header}
use id_core.Http.{Handler, ResponseWriter, Request, World}
use id_core.Logger.Context.{with_request_id, string_or_empty}

abbrev pub header_x_request_id : Bytes
header_x_request_id = bytes "X-Request-Id"

abbrev pub max_request_id_length : ℕ
max_request_id_length = 128

abbrev pub client_request_id_key : CtxKey
client_request_id_key = middleware_key (bytes "client_request_id")

abbrev pub is_printable : ℕ → Bool
is_printable c = leb 0x21 c && leb c 0x7E

unfoldable pub is_valid_request_id : Bytes → Bool
unfolding is_empty
is_valid_request_id s =
    if is_empty s
    then false
    else if ltb max_request_id_length (length s)
    then false
    else all is_printable s

-- What stands for one rune: itself, or its Unicode escape.
unfoldable pub rune_part : ℕ → Bytes
rune_part r = if is_printable r then encode_rune r else bytes "\\u" ++ hex_four r

-- The loop; `b` is what the builder holds.
unfoldable pub sanitize_from : Bytes → List ℕ → Bytes
sanitize_from b [] = b
sanitize_from b (r ∷ rs) =
    if ltb max_request_id_length (length b + length (rune_part r))
    then b
    else sanitize_from (b ++ rune_part r) rs

unfoldable pub sanitize_client_request_id : Bytes → Bytes
sanitize_client_request_id s = sanitize_from [] (runes s)

-- fallbackHost and fallbackPID, set when the package starts.
pub record Process : Type 0 where
  pub host : Bytes
  pub pid : ℕ

-- The host name that the system gives (`none` is an error), or "unknown".
unfoldable pub fallback_host : Option Bytes → Bytes
unfolding is_empty
fallback_host none = bytes "unknown"
fallback_host (some h) = if is_empty h then bytes "unknown" else h

-- %d of an int64 that is kept as its bit pattern.
unfoldable pub decimal_int64 : ℕ → Bytes
decimal_int64 n = if ltb n (2 ^ 63) then decimal n else b'-' ∷ decimal (2 ^ 64 - n)

unfoldable pub fallback_id : Process → ℕ → ℕ → Bytes
fallback_id process nanos n =
    bytes "fallback-"
    ++ (process.host
        ++ (b'-'
            ∷ (decimal process.pid ++ (b'-' ∷ (decimal_int64 nanos ++ (b'-' ∷ decimal_int64 n))))))

-- newRequestID: `uuid` is what uuid.NewV7 gives (`none` is an error), `nanos` the clock, and
-- `sequence` the atomic counter, which only a failure moves.
unfoldable pub new_request_id : Process → Option Bytes → ℕ → ℕ → Bytes × ℕ
new_request_id process (some id) nanos sequence = (id, sequence)
new_request_id process none nanos sequence =
    let n = (sequence + 1) % 2 ^ 64 in (fallback_id process nanos n, n)

unfoldable pub client_request_id_from : Option Context → Bytes
unfolding value
client_request_id_from none = []
client_request_id_from (some ctx) = string_or_empty (value ctx client_request_id_key)

unfoldable pub with_client_request_id : Context → Bytes → Context
with_client_request_id ctx v = with_value ctx client_request_id_key (str v)

-- The id of a request, what is kept of a refused one, and the counter.
unfoldable pub choose_id : Process → Option Bytes → ℕ → Bytes → ℕ → Bytes × Bytes × ℕ
choose_id process uuid nanos client sequence =
    if is_valid_request_id client
    then (client, [], sequence)
    else let (id, n) = new_request_id process uuid nanos sequence in
      (id, (if is_empty client then [] else sanitize_client_request_id client), n)

abbrev pub keep_client_id : Context → Bytes → Context
keep_client_id ctx [] = ctx
keep_client_id ctx (c ∷ s) = with_client_request_id ctx (c ∷ s)

-- The request that goes on to the next handler, its id, and the counter.
unfoldable pub identify : Process → Option Bytes → ℕ → Request → ℕ → Request × Bytes × ℕ
identify process uuid nanos r sequence =
    let (id, client_for_log, n) =
      choose_id process uuid nanos (get_header header_x_request_id r.header) sequence in
    (
      record r { context = keep_client_id (with_request_id (some r.context) id) client_for_log },
      id,
      n,
    )

unfoldable pub request_id : Process → Option Bytes → ℕ → Handler → Handler
request_id process uuid nanos next W out r s =
    let (r', id, n) = identify process uuid nanos r s.sequence in
    next W out r'
      (record s { writer = out.set_header header_x_request_id id s.writer; sequence = n })

-- ===== src/Tests/MiddlewareRuns.antt =====
-- core/internal/middleware on concrete inputs: query strings and request ids.
use id_core.Prelude.{ℕ, suc, ◌<◌, ◌≤◌, true, [], ◌∷◌, ◌≡◌, ◌≢◌, ◌↔◌, ◌⊎◌, refl, arith, length, take}
use id_core.Go.Bytes.{bytes}
use id_core.Go.Split.{split, join}
use id_core.Go.Strconv.{hex_four}
use id_core.Logger.Redact.{is_field_key_to_redact}
use id_core.Go.Utf8.{runes, runes_after}
use id_core.Go.Case.{flat_map}
use id_core.Middleware.Query.{redact_query_string, redact_param, decoded_key, param_key, has_value}
use id_core.Middleware.Query.Secrecy.{AlikeParams, redact_query_string-Alike_iff}
use id_core.Middleware.RequestId.{
  Process, is_valid_request_id, sanitize_client_request_id, sanitize_from, rune_part,
}
use id_core.Middleware.RequestId.RuneParts.{Printable}
use id_core.Middleware.RequestId.Sanitize.{is_valid_request_id_iff, sanitize-is_valid, sanitize_cut}
use id_core.Middleware.RequestId.Fallback.{Distinct}
use id_core.Middleware.RequestId.{fallback_id}
use id_core.Middleware.RequestId.Schedules.{
  waiting, counted, finished, count, read, other, Schedule, start, go_on, all_waiting,
}
use id_core.Middleware.RequestId.Schedules.Ids.{Schedule-Distinct}

abbrev same_rune : ℕ → ℕ
same_rune r = r

callback_redacted :
    redact_query_string same_rune (bytes "a=1&%63ode=xyz&b") ≡ bytes "a=1&%63ode=[REDACTED]&b"
unfolding redact_query_string join split redact_param is_field_key_to_redact decoded_key param_key
    has_value
callback_redacted = refl

redact_query_string-Alike_iff_example :
    (redact_query_string same_rune (bytes "a=1&code=x")
      ≡ redact_query_string same_rune (bytes "a=1&code=yz"))
    ↔ AlikeParams same_rune (split (bytes "a=1&code=x") b'&') (split (bytes "a=1&code=yz") b'&')
redact_query_string-Alike_iff_example =
    redact_query_string-Alike_iff same_rune (bytes "a=1&code=x") (bytes "a=1&code=yz")

is_valid_request_id_iff_example :
    (is_valid_request_id (bytes "req-7") ≡ true)
    ↔ ((bytes "req-7" ≢ []) × (length (bytes "req-7") ≤ 128) × Printable (bytes "req-7"))
is_valid_request_id_iff_example = is_valid_request_id_iff (bytes "req-7")

newline_escaped : sanitize_client_request_id (bytes "a\nb") ≡ bytes "a\\u000ab"
unfolding sanitize_client_request_id sanitize_from runes runes_after rune_part hex_four
newline_escaped = refl

sanitize-is_valid_example : is_valid_request_id (sanitize_client_request_id (bytes "a b")) ≡ true
sanitize-is_valid_example = sanitize-is_valid (bytes "a b") (λ e. cc)

sanitize_cut_example :
    (n : ℕ) × (sanitize_client_request_id (bytes "a b")
      ≡ flat_map rune_part (take n (runes (bytes "a b"))))
    × (length (sanitize_client_request_id (bytes "a b")) ≤ 128)
    × ((take n (runes (bytes "a b")) ≡ runes (bytes "a b"))
        ⊎ (128 < length (flat_map rune_part (take (suc n) (runes (bytes "a b"))))))
sanitize_cut_example = sanitize_cut (bytes "a b")

valid_id : is_valid_request_id (bytes "req-7") ≡ true
unfolding is_valid_request_id
valid_id = refl

abbrev process : Process
process = record { host = bytes "core-1"; pid = 42 }

-- Two requests: the second one takes its number first, and both read one clock.
interleaved : Schedule 0 (all_waiting 2) 2 (finished 9 2 ∷ finished 9 1 ∷ [])
unfolding all_waiting
interleaved =
    go_on
      (go_on (go_on (go_on start (other waiting (count 0 []))) (count 1 (counted 1 ∷ [])))
        (read 2 2 9 (counted 1 ∷ [])))
      (other (finished 9 2) (read 2 1 9 []))

Schedule-Distinct_example : Distinct (fallback_id process 9 2 ∷ fallback_id process 9 1 ∷ [])
Schedule-Distinct_example =
    Schedule-Distinct process 2 0 2 (finished 9 2 ∷ finished 9 1 ∷ []) (omega arith) interleaved

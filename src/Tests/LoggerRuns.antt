-- ===== src/Tests/LoggerRuns.antt =====
-- core/internal/logger on concrete inputs.
use id_core.Prelude.{
  ℕ, true, false, some, [], ◌∷◌, ◌++◌, ◌≡◌, ◌↔◌, ◌≤◌, refl, arith, length, take, append-nil, sym,
}
use id_core.Prelude.Int.{pos}
use id_core.Go.Bytes.{Bytes, bytes}
use id_core.Go.Any.{str, nil_slice, Fields, end, field}
use id_core.Logger.Redact.{
  Header, redacted_value, is_field_key_to_redact, redact_headers, redact_map,
}
use id_core.Logger.Redact.Secrecy.{AlikeMaps, redact_map-Alike_iff, redact_map_keeps}
use id_core.Logger.Redact.Headers.{AlikeHeader, redact_headers-Alike_iff}
use id_core.Logger.Fallback.{Sink, FallbackWriter, write}
use id_core.Logger.Fallback.Delivery.{IsWriter}

abbrev same_rune : ℕ → ℕ
same_rune r = r

abbrev login : Fields
login =
    field (bytes "user") (str (bytes "ann")) (field (bytes "Password") (str (bytes "hunter2")) end)

abbrev login_two : Fields
login_two = field (bytes "user") (str (bytes "ann")) (field (bytes "Password") nil_slice end)

login_redacted :
    redact_map same_rune (some login)
    ≡ some (
        field
          (bytes "user")
          (str (bytes "ann"))
          (field (bytes "Password") (str redacted_value) end))
unfolding redact_map is_field_key_to_redact
login_redacted = refl

redact_map-Alike_iff_example :
    (redact_map same_rune (some login) ≡ redact_map same_rune (some login_two))
    ↔ AlikeMaps same_rune (some login) (some login_two)
redact_map-Alike_iff_example = redact_map-Alike_iff same_rune (some login) (some login_two)

redact_map_keeps_example :
    AlikeMaps same_rune (redact_map same_rune (some login)) (some login)
    × (redact_map same_rune (redact_map same_rune (some login)) ≡ redact_map same_rune (some login))
redact_map_keeps_example = redact_map_keeps same_rune (some login)

abbrev with_cookie : Bytes → Header
with_cookie v = (bytes "Accept", bytes "text/html" ∷ []) ∷ (bytes "cookie", v ∷ []) ∷ []

redact_headers-Alike_iff_example :
    (redact_headers same_rune (some (with_cookie (bytes "a=1")))
      ≡ redact_headers same_rune (some (with_cookie (bytes "b=2"))))
    ↔ AlikeHeader same_rune (with_cookie (bytes "a=1")) (with_cookie (bytes "b=2"))
redact_headers-Alike_iff_example =
    redact_headers-Alike_iff same_rune (with_cookie (bytes "a=1")) (with_cookie (bytes "b=2"))

-- A device that takes the first two bytes of a write and reports an error for longer ones.
abbrev pub two_bytes : Sink
two_bytes = record {
  State = Bytes;
  write = λ p s. elim p [
    | [] ↦ (pos 0, false, s)
    | a ∷ [] ↦ (pos 1, false, s ++ (a ∷ []))
    | a ∷ b ∷ [] ↦ (pos 2, false, s ++ (a ∷ b ∷ []))
    | a ∷ b ∷ c ∷ t ↦ (pos 2, true, s ++ (a ∷ b ∷ []))
  ];
}

abbrev pub taken : Sink.State two_bytes → Bytes
taken s = s

two_bytes-counts :
    (p s : Bytes)
    → (n : ℕ) × ((two_bytes.write p s).0 ≡ pos n)
      × (n ≤ length p)
      × (taken (two_bytes.write p s).2 ≡ taken s ++ take n p)
      × ((two_bytes.write p s).1 ≡ false → n ≡ length p)
two_bytes-counts [] s = (0, refl, omega arith, sym (append-nil s), λ _. refl)
two_bytes-counts (a ∷ []) s = (1, refl, omega arith, refl, λ _. refl)
two_bytes-counts (a ∷ b ∷ []) s = (2, refl, omega arith, refl, λ _. refl)
two_bytes-counts (a ∷ b ∷ c ∷ t) s = (2, refl, omega arith, refl, λ e. cc)

pub two_bytes-IsWriter : IsWriter two_bytes taken
two_bytes-IsWriter = record { keeps = two_bytes-counts }

abbrev idle : FallbackWriter two_bytes two_bytes
idle = record { first = []; second = []; drops = 0 }

-- Two bytes go to the primary, two to the fallback, and the fifth is lost and counted.
five_bytes :
    (write two_bytes two_bytes (bytes "abcde") idle)
    ≡ (pos 5, record { first = bytes "ab"; second = bytes "cd"; drops = 1 })
unfolding write
five_bytes = refl

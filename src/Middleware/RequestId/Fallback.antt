-- ===== src/Middleware/RequestId/Fallback.antt =====
-- The substitute ids of newRequestID.
use id_core.Prelude.{
  ℕ, ◌+◌, ◌^◌, ◌%◌, ◌≤◌, ◌<◌, List, [], ◌∷◌, ◌++◌, ◌≡◌, refl, sym, ap, ◌∙◌, ◌≢◌, none, true, false,
  length, arith, ◌==◌, All, append_assoc, if◌then◌else◌,
}
use id_core.Go.Bytes.{Bytes, bytes, contains_byte}
use id_core.Go.Strconv.{decimal, atoi}
use id_core.Go.Strconv.Laws.{Digits, decimal-Digits, atoi-decimal}
use id_core.Middleware.RequestId.{Process, decimal_int64, fallback_id, new_request_id}

-- What stands behind the last '-' of a text.
after_last : Bytes → Bytes
after_last [] = []
after_last (c ∷ s) =
    let rest = after_last s in if contains_byte b'-' s then rest else if c == b'-' then s else c ∷ s

contains-append : (a d : Bytes) → contains_byte b'-' (a ++ (b'-' ∷ d)) ≡ true
unfolding contains_byte
contains-append [] d = refl
contains-append (c ∷ a) d = ground (arith, contains-append a d)

after_last-append : (a d : Bytes) → contains_byte b'-' d ≡ false → after_last (a ++ (b'-' ∷ d)) ≡ d
unfolding after_last
after_last-append [] d h = rw h
after_last-append (c ∷ a) d h = rw (contains-append a d) (after_last-append a d h)

Digits-Lacks : (s : Bytes) → Digits s → contains_byte b'-' s ≡ false
unfolding contains_byte
Digits-Lacks [] h = refl
Digits-Lacks (c ∷ s) h = ground (arith, Digits-Lacks s h.1)

decimal-injective : (n m : ℕ) → n < 2 ^ 63 → m < 2 ^ 63 → decimal n ≡ decimal m → n ≡ m
decimal-injective n m h k e = cc (sym (atoi-decimal n h) ∙ ap atoi e ∙ atoi-decimal m k)

-- The part of a substitute id in front of its counter.
stem : Process → ℕ → Bytes
stem p nanos =
    bytes "fallback-" ++ (p.host ++ (b'-' ∷ (decimal p.pid ++ (b'-' ∷ decimal_int64 nanos))))

decimal_int64_small : (n : ℕ) → n < 2 ^ 63 → decimal_int64 n ≡ decimal n
unfolding decimal_int64
decimal_int64_small n h = ground arith

fallback_id-stem :
    (p : Process) (nanos n : ℕ)
    → n < 2 ^ 63
    → fallback_id p nanos n ≡ stem p nanos ++ (b'-' ∷ decimal n)
unfolding fallback_id stem
fallback_id-stem p nanos n h = rw (decimal_int64_small n h) (simp append_assoc)

counter-of-id :
    (p : Process) (nanos n : ℕ) → n < 2 ^ 63 → after_last (fallback_id p nanos n) ≡ decimal n
counter-of-id p nanos n h =
    rw (fallback_id-stem p nanos n h)
      (after_last-append (stem p nanos) (decimal n) (Digits-Lacks (decimal n) (decimal-Digits n)))

-- Two substitute ids of one process are equal only if their counters are, whatever the clock says.
pub fallback_id-injective :
    (p : Process) (t u n m : ℕ)
    → n < 2 ^ 63
    → m < 2 ^ 63
    → fallback_id p t n ≡ fallback_id p u m
    → n ≡ m
fallback_id-injective p t u n m h k e =
    decimal-injective n m h k
      (sym (counter-of-id p t n h) ∙ ap after_last e ∙ counter-of-id p u m k)

-- The ids of the calls of newRequestID at the given clock readings, in the order in which they
-- reach the counter, when uuid.NewV7 fails each time.
unfoldable pub failing_calls : Process → List ℕ → ℕ → List Bytes
failing_calls p [] sequence = []
failing_calls p (t ∷ ts) sequence =
    let (id, n) = new_request_id p none t sequence in id ∷ failing_calls p ts n

abbrev pub Distinct : List Bytes → Type 0
Distinct [] = Unit
Distinct (x ∷ xs) = All (λ y. x ≢ y) xs × Distinct xs

next-id :
    (p : Process) (t s : ℕ)
    → s + 1 < 2 ^ 63
    → new_request_id p none t s ≡ (fallback_id p t (s + 1), s + 1)
unfolding new_request_id
next-id p t s h = let same : (s + 1) % 2 ^ 64 ≡ s + 1 = omega arith in rw same

later_ids_differ :
    (p : Process) (t n : ℕ) (ts : List ℕ) (s : ℕ)
    → n ≤ s
    → s + length ts < 2 ^ 63
    → All (λ y. fallback_id p t n ≢ y) (failing_calls p ts s)
unfolding failing_calls
later_ids_differ p t n [] s le h = tt
later_ids_differ p t n (u ∷ ts) s le h = rw (next-id p u s (omega arith)) (
  λ e. absurd (omega (arith, fallback_id-injective p t u n (s + 1) (omega arith) (omega arith) e)),
  later_ids_differ p t n ts (s + 1) (omega arith) (omega arith),
)

-- The substitute ids of one process are pairwise different, also where the clock stands still or
-- runs backwards, for as long as the counter stays below 2^63.
failing_calls-Distinct :
    (p : Process) (clock : List ℕ) (sequence : ℕ)
    → sequence + length clock < 2 ^ 63
    → Distinct (failing_calls p clock sequence)
unfolding failing_calls
failing_calls-Distinct p [] s h = tt
failing_calls-Distinct p (t ∷ ts) s h = rw (next-id p t s (omega arith)) (
  later_ids_differ p t (s + 1) ts (s + 1) (omega arith) (omega arith),
  failing_calls-Distinct p ts (s + 1) (omega arith),
)

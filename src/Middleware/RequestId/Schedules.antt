-- ===== src/Middleware/RequestId/Schedules.antt =====
-- Requests that run newRequestID at the same time (core/internal/middleware/request_id.go), when
-- uuid.NewV7 fails for each of them.
pub mod Fair
pub mod Ids
use id_core.Prelude.{
  ℕ, zero, suc, ◌+◌, ◌^◌, ◌%◌, ◌≤◌, ◌<◌, List, [], ◌∷◌, ◌≡◌, ◌≢◌, refl, sym, ap, ◌∙◌, subst, none,
  arith, All,
}
use id_core.Go.Bytes.{Bytes}
use id_core.Middleware.RequestId.{Process, fallback_id, new_request_id}
use id_core.Middleware.RequestId.Fallback.{Distinct, fallback_id-injective}

-- A request before atomic.AddInt64, with its number, and with the clock that went into its id.
pub data Stage : Type 0 where
  waiting : Stage
  counted : ℕ → Stage
  finished : ℕ → ℕ → Stage

abbrev pub next_number : ℕ → ℕ
next_number s = (s + 1) % 2 ^ 64

-- The two halves together are newRequestID.
halves :
    (p : Process) (t s : ℕ)
    → new_request_id p none t s ≡ (fallback_id p t (next_number s), next_number s)
unfolding new_request_id
halves p t s = refl

-- A move of one request: it takes the next number from the shared counter, or it reads the clock,
-- which may say anything.
pub data Moves : ℕ → List Stage → ℕ → List Stage → Type 0 where
  count :
      (s : ℕ) (rest : List Stage)
      → Moves s (waiting ∷ rest) (next_number s) (counted (next_number s) ∷ rest)
  read : (s n t : ℕ) (rest : List Stage) → Moves s (counted n ∷ rest) s (finished t n ∷ rest)
  other :
      {s late : ℕ} {xs ys : List Stage} (x : Stage)
      → Moves s xs late ys
      → Moves s (x ∷ xs) late (x ∷ ys)

pub data Schedule (s : ℕ) (xs : List Stage) : ℕ → List Stage → Type 0 where
  start : Schedule s xs s xs
  go_on :
      {late last : ℕ} {ys zs : List Stage}
      → Schedule s xs late ys
      → Moves late ys last zs
      → Schedule s xs last zs

-- `k` requests that have not begun.
unfoldable pub all_waiting : ℕ → List Stage
all_waiting zero = []
all_waiting (suc k) = waiting ∷ all_waiting k

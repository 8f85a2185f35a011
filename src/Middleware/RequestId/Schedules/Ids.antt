-- ===== src/Middleware/RequestId/Schedules/Ids.antt =====
-- The ids of requests that run at the same time.
use id_core.Prelude.{ℕ, zero, suc, ◌+◌, ◌^◌, ◌<◌, List, [], ◌∷◌, ◌≡◌, ◌≢◌, refl, ap, arith, All}
use id_core.Go.Bytes.{Bytes}
use id_core.Middleware.RequestId.{Process, fallback_id}
use id_core.Middleware.RequestId.Fallback.{Distinct, fallback_id-injective}
use id_core.Middleware.RequestId.Schedules.{
  Stage, waiting, counted, finished, Schedule, all_waiting,
}
use id_core.Middleware.RequestId.Schedules.Fair.{left, Below, Apart, AllApart, Schedule-IsFair}

-- The ids of the requests that have one.
abbrev pub ids : Process → List Stage → List Bytes
ids p [] = []
ids p (waiting ∷ xs) = ids p xs
ids p (counted n ∷ xs) = ids p xs
ids p (finished t n ∷ xs) = fallback_id p t n ∷ ids p xs

ids-Apart :
    (p : Process) (t n s : ℕ) (xs : List Stage)
    → n < 2 ^ 63
    → s < 2 ^ 63
    → Below s xs
    → Apart n xs
    → All (λ y. fallback_id p t n ≢ y) (ids p xs)
ids-Apart p t n s [] fits small b h = tt
ids-Apart p t n s (waiting ∷ xs) fits small b h = ids-Apart p t n s xs fits small b.1 h.1
ids-Apart p t n s (counted m ∷ xs) fits small b h = ids-Apart p t n s xs fits small b.1 h.1
ids-Apart p t n s (finished u m ∷ xs) fits small b h = (
  λ e. h.0 (fallback_id-injective p t u n m fits (omega (arith, small, b.0)) e),
  ids-Apart p t n s xs fits small b.1 h.1,
)

ids-Distinct :
    (p : Process) (s : ℕ) (xs : List Stage)
    → s < 2 ^ 63
    → Below s xs
    → AllApart xs
    → Distinct (ids p xs)
ids-Distinct p s [] small b h = tt
ids-Distinct p s (waiting ∷ xs) small b h = ids-Distinct p s xs small b.1 h.1
ids-Distinct p s (counted n ∷ xs) small b h = ids-Distinct p s xs small b.1 h.1
ids-Distinct p s (finished t n ∷ xs) small b h = (
  ids-Apart p t n s xs (omega (arith, small, b.0)) small b.1 h.0,
  ids-Distinct p s xs small b.1 h.1,
)

left-all_waiting : (k : ℕ) → left (all_waiting k) ≡ k
unfolding all_waiting
left-all_waiting zero = refl
left-all_waiting (suc k) = ap suc (left-all_waiting k)

all_waiting-Below : (s k : ℕ) → Below s (all_waiting k)
unfolding all_waiting
all_waiting-Below s zero = tt
all_waiting-Below s (suc k) = (tt, all_waiting-Below s k)

all_waiting-AllApart : (k : ℕ) → AllApart (all_waiting k)
unfolding all_waiting
all_waiting-AllApart zero = tt
all_waiting-AllApart (suc k) = (tt, all_waiting-AllApart k)

-- However the requests of one process are interleaved, and whatever the clock says, the substitute
-- ids that they have at any time are pairwise different, for as long as the counter stays below 2^63.
pub Schedule-Distinct :
    (p : Process) (k sequence late : ℕ) (stages : List Stage)
    → sequence + k < 2 ^ 63
    → Schedule sequence (all_waiting k) late stages
    → Distinct (ids p stages)
Schedule-Distinct p k sequence late stages small sched =
    let f = Schedule-IsFair sched (record {
      small = omega (arith, small, left-all_waiting k);
      below = all_waiting-Below sequence k;
      apart = all_waiting-AllApart k;
    }) in
    ids-Distinct p late stages (omega (arith, f.small)) f.below f.apart

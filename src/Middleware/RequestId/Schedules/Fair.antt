-- ===== src/Middleware/RequestId/Schedules/Fair.antt =====
-- What every move of a schedule keeps.
use id_core.Prelude.{
  ℕ, suc, ◌+◌, ◌^◌, ◌≤◌, ◌<◌, List, [], ◌∷◌, ◌≡◌, ◌≢◌, refl, sym, subst, arith, All,
}
use id_core.Middleware.RequestId.Schedules.{
  Stage, waiting, counted, finished, next_number, Moves, count, read, other, Schedule, start, go_on,
}

abbrev pub left : List Stage → ℕ
left [] = 0
left (waiting ∷ xs) = suc (left xs)
left (counted n ∷ xs) = left xs
left (finished t n ∷ xs) = left xs

-- What holds of the number of a request, if it has one.
abbrev pub Each : (ℕ → Type 0) → Stage → Type 0
Each P waiting = Unit
Each P (counted n) = P n
Each P (finished t n) = P n

abbrev pub Below : ℕ → List Stage → Type 0
Below s = All (Each (λ n. n ≤ s))

abbrev pub Apart : ℕ → List Stage → Type 0
Apart n = All (Each (λ m. n ≢ m))

abbrev pub AllApart : List Stage → Type 0
AllApart [] = Unit
AllApart (x ∷ xs) = Each (λ n. Apart n xs) x × AllApart xs

Each-map : (P Q : ℕ → Type 0) (x : Stage) → ((n : ℕ) → P n → Q n) → Each P x → Each Q x
Each-map P Q waiting f h = tt
Each-map P Q (counted n) f h = f n h
Each-map P Q (finished t n) f h = f n h

All-Each-map :
    (P Q : ℕ → Type 0) (xs : List Stage) → ((n : ℕ) → P n → Q n) → All (Each P) xs → All (Each Q) xs
All-Each-map P Q [] f h = tt
All-Each-map P Q (x ∷ xs) f h = (Each-map P Q x f h.0, All-Each-map P Q xs f h.1)

left-cons :
    (x : Stage) (xs ys : List Stage) (s late : ℕ)
    → late + left ys ≡ s + left xs
    → late + left (x ∷ ys) ≡ s + left (x ∷ xs)
left-cons waiting xs ys s late h = omega (arith, h)
left-cons (counted n) xs ys s late h = h
left-cons (finished t n) xs ys s late h = h

left-tail : (x : Stage) (xs : List Stage) → left xs ≤ left (x ∷ xs)
left-tail waiting xs = omega arith
left-tail (counted n) xs = omega arith
left-tail (finished t n) xs = omega arith

next_number_small : (s : ℕ) → s + 1 < 2 ^ 63 → next_number s ≡ s + 1
next_number_small s h = omega (arith, h)

-- What a move does to the counter and to the numbers that are still to be taken.
record Advances (s : ℕ) (xs : List Stage) (late : ℕ) (ys : List Stage) : Type 0 where
  grows : s ≤ late
  balance : late + left ys ≡ s + left xs

Moves-Advances :
    {s late : ℕ} {xs ys : List Stage}
    → Moves s xs late ys
    → s + left xs < 2 ^ 63
    → Advances s xs late ys
Moves-Advances (count s rest) small =
    let e = next_number_small s (omega (arith, small)) in
    record { grows = omega (arith, e); balance = omega (arith, e) }
Moves-Advances (read s n t rest) small = record { grows = omega arith; balance = refl }
Moves-Advances {s = s} {late = late} (other {xs = xs} {ys = ys} x m) small =
    let a = Moves-Advances m (omega (arith, small, left-tail x xs)) in
    record { grows = a.grows; balance = left-cons x xs ys s late a.balance }

-- The numbers are those that the counter has had, and no two requests have one number.
pub record IsFair (s : ℕ) (xs : List Stage) : Type 0 where
  pub small : s + left xs < 2 ^ 63
  pub below : Below s xs
  pub apart : AllApart xs

below-Apart : (s : ℕ) (xs : List Stage) → Below s xs → Apart (s + 1) xs
below-Apart s xs = All-Each-map (λ n. n ≤ s) (λ m. (s + 1) ≢ m) xs (λ n h e. omega (arith, h, e))

Below-grows : (s late : ℕ) (xs : List Stage) → s ≤ late → Below s xs → Below late xs
Below-grows s late xs le =
    All-Each-map (λ n. n ≤ s) (λ n. n ≤ late) xs (λ n h. omega (arith, h, le))

Moves-Below :
    {s late : ℕ} {xs ys : List Stage}
    → Moves s xs late ys
    → s + left xs < 2 ^ 63
    → Below s xs
    → Below late ys
Moves-Below (count s rest) small h = (
  omega arith,
  Below-grows s (next_number s) rest (Moves-Advances (count s rest) small).grows h.1,
)
Moves-Below (read s n t rest) small h = h
Moves-Below {s = s} {late = late} (other {xs = xs} x m) small h =
    let fits : s + left xs < 2 ^ 63 = omega (arith, small, left-tail x xs) in
    let grows = (Moves-Advances m fits).grows in
    (
      Each-map (λ n. n ≤ s) (λ n. n ≤ late) x (λ n k. omega (arith, k, grows)) h.0,
      Moves-Below m fits h.1,
    )

Moves-Apart :
    {s late : ℕ} {xs ys : List Stage} (n : ℕ)
    → Moves s xs late ys
    → s + left xs < 2 ^ 63
    → n ≤ s
    → Apart n xs
    → Apart n ys
Moves-Apart n (count s rest) small le h =
    (λ e. absurd (omega (arith, e, le, next_number_small s (omega (arith, small)))), h.1)
Moves-Apart n (read s k t rest) small le h = h
Moves-Apart n (other {xs = xs} x m) small le h =
    (h.0, Moves-Apart n m (omega (arith, small, left-tail x xs)) le h.1)

Moves-AllApart :
    {s late : ℕ} {xs ys : List Stage}
    → Moves s xs late ys
    → s + left xs < 2 ^ 63
    → Below s xs
    → AllApart xs
    → AllApart ys
Moves-AllApart (count s rest) small b h =
    let e = next_number_small s (omega (arith, small)) in
    (subst (λ n. Apart n rest) (sym e) (below-Apart s rest b.1), h.1)
Moves-AllApart (read s n t rest) small b h = h
Moves-AllApart {s = s} (other {xs = xs} {ys = ys} waiting m) small b h =
    (tt, Moves-AllApart m (omega (arith, small)) b.1 h.1)
Moves-AllApart {s = s} (other {xs = xs} {ys = ys} (counted n) m) small b h =
    (Moves-Apart n m small b.0 h.0, Moves-AllApart m small b.1 h.1)
Moves-AllApart {s = s} (other {xs = xs} {ys = ys} (finished t n) m) small b h =
    (Moves-Apart n m small b.0 h.0, Moves-AllApart m small b.1 h.1)

Moves-IsFair : {s late : ℕ} {xs ys : List Stage} → Moves s xs late ys → IsFair s xs → IsFair late ys
Moves-IsFair m f = record {
  small = omega (arith, f.small, (Moves-Advances m f.small).balance);
  below = Moves-Below m f.small f.below;
  apart = Moves-AllApart m f.small f.below f.apart;
}

pub Schedule-IsFair :
    {s : ℕ} {xs : List Stage} {late : ℕ} {ys : List Stage}
    → Schedule s xs late ys
    → IsFair s xs
    → IsFair late ys
Schedule-IsFair start f = f
Schedule-IsFair (go_on sched m) f = Moves-IsFair m (Schedule-IsFair sched f)

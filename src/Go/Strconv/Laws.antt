-- ===== src/Go/Strconv/Laws.antt =====
-- Printing a number in decimal and reading it back, and the range of what is read.
use id_core.Prelude.{
  ℕ, zero, suc, ◌+◌, ◌-◌, ◌*◌, ◌/◌, ◌%◌, ◌^◌, ◌≤◌, ◌<◌, [], ◌∷◌, ◌++◌, Bool, true, false, ◌≡◌, refl,
  ap, ◌∙◌, ◌≢◌, arith, ltb, All, All-append, Bool-cases, inl, inr, ok, >>=-Yields, ◌==◌,
}
use id_core.Prelude.Int.{ℤ, pos, negsuc}
use id_core.Go.Bytes.{Bytes}
use id_core.Go.Strconv.{
  parse_digits, parse_uint, parse_magnitude, parse_int, atoi, signed, int64_half, print_digits,
  decimal_digit, decimal,
}

abbrev pub Digits : Bytes → Type 0
Digits = All (λ c. (b'0' ≤ c) × (c ≤ b'9'))

print_digits-Digits : (fuel n : ℕ) → Digits (print_digits decimal_digit 10 fuel n)
unfolding print_digits
print_digits-Digits zero n = tt
print_digits-Digits (suc fuel) n = elim (Bool-cases (ltb n 10)) [
  | inl small ↦ rw small ((ground arith, ground arith), tt)
  | inr large ↦ rw large (
      All-append (λ c. (b'0' ≤ c) × (c ≤ b'9')) (print_digits decimal_digit 10 fuel (n / 10)) _
        (print_digits-Digits fuel (n / 10)) ((omega arith, omega arith), tt))
]

append-one-ne-nil : (s : Bytes) (c : ℕ) → s ++ c ∷ [] ≢ []
append-one-ne-nil [] c e = cc
append-one-ne-nil (b ∷ s) c e = cc

pub decimal-ne-nil : (n : ℕ) → decimal n ≢ []
unfolding decimal
decimal-ne-nil n e =
    ground
      (arith, append-one-ne-nil (print_digits decimal_digit 10 n (n / 10)) (decimal_digit (n % 10)))

pub decimal-Digits : (n : ℕ) → Digits (decimal n)
unfolding decimal
decimal-Digits n = print_digits-Digits (suc n) n

parse-one :
    (max a d : ℕ)
    → max ≤ 18446744073709551615
    → d < 10
    → a * 10 + d ≤ max
    → parse_digits max a (decimal_digit d ∷ []) ≡ ok (a * 10 + d)
unfolding parse_digits
parse-one max a d h small fits = ground arith

parse-append :
    (max a : ℕ) (s : Bytes) (c v : ℕ)
    → parse_digits max a s ≡ ok v
    → parse_digits max a (s ++ c ∷ []) ≡ parse_digits max v (c ∷ [])
unfolding parse_digits
parse-append max a [] c v h = ground arith
parse-append max a (d ∷ s) c v h = ground (arith, parse-append max (a * 10 + (d - b'0')) s c v)

parse-print :
    (max fuel n : ℕ)
    → max ≤ 18446744073709551615
    → n < fuel
    → n ≤ max
    → parse_digits max 0 (print_digits decimal_digit 10 fuel n) ≡ ok n
unfolding print_digits
parse-print max zero n h lt le = absurd (omega arith)
parse-print max (suc fuel) n h lt le = elim (Bool-cases (ltb n 10)) [
  | inl small ↦ rw small (parse-one max 0 n h (ground arith) (omega arith) ∙ ap ok (omega arith))
  | inr large ↦ rw large (
      parse-append max 0 (print_digits decimal_digit 10 fuel (n / 10)) (decimal_digit (n % 10))
        (n / 10) (parse-print max fuel (n / 10) h (ground arith) (omega arith))
      ∙ parse-one max (n / 10) (n % 10) h (omega arith) (omega arith)
      ∙ ap ok (omega arith))
]

parse_int-Digits :
    (half n : ℕ) (s : Bytes)
    → s ≢ []
    → Digits s
    → parse_digits (2 * half - 1) 0 s ≡ ok n
    → parse_int half s ≡ signed half false n
unfolding parse_int parse_magnitude parse_uint
parse_int-Digits half n [] ne h e = absurd (ne refl)
parse_int-Digits half n (c ∷ s) ne h e = let digit = h.0 in ground arith

-- Every number below 2^63 is read back from its decimal digits.
pub atoi-decimal : (n : ℕ) → n < 2 ^ 63 → atoi (decimal n) ≡ ok (pos n)
unfolding atoi decimal
atoi-decimal n h =
    parse_int-Digits int64_half n (decimal n) (decimal-ne-nil n) (decimal-Digits n)
      (parse-print (2 ^ 64 - 1) (suc n) n (omega arith) (omega arith) (omega arith))
    ∙ ground arith

abbrev pub InRange : ℕ → ℤ → Type 0
InRange half (pos n) = n < half
InRange half (negsuc n) = suc n ≤ half

signed-InRange :
    (half : ℕ) (neg : Bool) (n : ℕ) (v : ℤ) → 0 < half → signed half neg n ≡ ok v → InRange half v
signed-InRange half false n (pos m) h e = ground arith
signed-InRange half true zero (pos m) h e = ground arith
signed-InRange half true (suc n) (pos m) h e = ground arith
signed-InRange half false n (negsuc m) h e = ground arith
signed-InRange half true zero (negsuc m) h e = ground arith
signed-InRange half true (suc n) (negsuc m) h e = ground arith

parse_magnitude-InRange :
    (half : ℕ) (neg : Bool) (s : Bytes) (v : ℤ)
    → 0 < half
    → parse_magnitude half neg s ≡ ok v
    → InRange half v
unfolding parse_magnitude
parse_magnitude-InRange half neg s v h e =
    >>=-Yields (InRange half) (parse_uint (2 * half - 1) s) (signed half neg)
      (λ n _ w. signed-InRange half neg n w h) v e

-- What is read fits the integer type.
pub parse_int-InRange :
    (half : ℕ) (s : Bytes) (v : ℤ) → 0 < half → parse_int half s ≡ ok v → InRange half v
unfolding parse_int
parse_int-InRange half [] v h e = cc
parse_int-InRange half (c ∷ s) v h e =
    let minus = parse_magnitude-InRange half true s v h in
    let plus = parse_magnitude-InRange half false s v h in
    let bare = parse_magnitude-InRange half false (c ∷ s) v h in
    elim (Bool-cases (c == b'+')) [
      | inl signed ↦ plus (rw signed at e)
      | inr other ↦ elim (Bool-cases (c == b'-')) [
        | inl negative ↦ minus (rw (other, negative) at e)
        | inr digit ↦ bare (rw (other, digit) at e)
      ]
    ]

-- ===== src/Middleware/RequestId/RuneParts.antt =====
-- What sanitizeClientRequestID puts for one rune.
use id_core.Prelude.{
  ℕ, zero, suc, ◌-◌, ◌/◌, ◌%◌, ◌≤◌, ◌<◌, true, false, [], ◌∷◌, ◌≡◌, refl, ap, inl, inr, arith, All,
  All-append, length, length-append, ltb, Bool-cases,
}
use id_core.Go.Bytes.{Bytes}
use id_core.Go.Strconv.{print_digits, hex_digit, hex, zeros, hex_four}
use id_core.Middleware.RequestId.{is_printable, rune_part}

abbrev pub Printable : Bytes → Type 0
Printable = All (λ c. (0x21 ≤ c) × (c ≤ 0x7E))

pub hex_digit-printable : (d : ℕ) → d < 16 → (0x21 ≤ hex_digit d) × (hex_digit d ≤ 0x7E)
hex_digit-printable d h = ground arith

pub hex_digits-Printable : (fuel n : ℕ) → Printable (print_digits hex_digit 16 fuel n)
unfolding print_digits
hex_digits-Printable zero n = tt
hex_digits-Printable (suc fuel) n = elim (Bool-cases (ltb n 16)) [
  | inl small ↦ rw small (hex_digit-printable n (ground arith), tt)
  | inr large ↦ rw large (
      All-append (λ c. (0x21 ≤ c) × (c ≤ 0x7E)) (print_digits hex_digit 16 fuel (n / 16)) _
        (hex_digits-Printable fuel (n / 16)) (hex_digit-printable (n % 16) (omega arith), tt))
]

pub hex_digits-length : (fuel n : ℕ) → length (print_digits hex_digit 16 fuel n) ≤ fuel
unfolding print_digits
hex_digits-length zero n = omega arith
hex_digits-length (suc fuel) n = ground (
  arith,
  hex_digits-length fuel (n / 16),
  length-append (print_digits hex_digit 16 fuel (n / 16)) (hex_digit (n % 16) ∷ []),
)

pub zeros-Printable : (n : ℕ) → Printable (zeros n)
zeros-Printable zero = tt
zeros-Printable (suc n) = ((omega arith, omega arith), zeros-Printable n)

pub length-zeros : (n : ℕ) → length (zeros n) ≡ n
length-zeros zero = refl
length-zeros (suc n) = ap suc (length-zeros n)

pub hex_four-Printable : (r : ℕ) → Printable (hex_four r) × (length (hex_four r) ≤ 12)
unfolding hex_four
hex_four-Printable r = (
  All-append (λ c. (0x21 ≤ c) × (c ≤ 0x7E)) (zeros (4 - length (hex r))) (hex r)
      (zeros-Printable (4 - length (hex r))) (hex_digits-Printable 8 r),
  omega (
    arith,
    length-append (zeros (4 - length (hex r))) (hex r),
    length-zeros (4 - length (hex r)),
    hex_digits-length 8 r,
  ),
)

pub rune_part_plain : (r : ℕ) → is_printable r ≡ true → rune_part r ≡ r ∷ []
unfolding rune_part
rune_part_plain r h = rw h (ground arith)

pub rune_part_escaped : (r : ℕ) → is_printable r ≡ false → rune_part r ≡ 92 ∷ 117 ∷ hex_four r
unfolding rune_part
rune_part_escaped r h = rw h

pub rune_part-Printable :
    (r : ℕ) → Printable (rune_part r) × (0 < length (rune_part r)) × (length (rune_part r) ≤ 128)
rune_part-Printable r = elim (Bool-cases (is_printable r)) [
  | inl plain ↦
      rw (rune_part_plain r plain) (((ground arith, ground arith), tt), omega arith, omega arith)
  | inr other ↦
      let (printable, short) = hex_four-Printable r in
      rw (rune_part_escaped r other) (
        ((omega arith, omega arith), ((omega arith, omega arith), printable)),
        omega arith,
        omega arith,
      )
]

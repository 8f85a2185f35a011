-- ===== src/Go/Utf8/Laws.antt =====
-- A decoded rune is a code point, and ASCII text is its own runes.
use id_core.Prelude.{
  ℕ, ◌&&◌, Bool-cases, inl, inr, true, zero, suc, ◌+◌, ◌-◌, ◌*◌, ◌≤◌, ◌<◌, ◌≡◌, refl, ap, [], ◌∷◌,
  arith, All, ◌≢◌,
}
use id_core.Go.Bytes.{Bytes}
use id_core.Go.Utf8.{
  between, second_ok, decode_two, decode_three, decode_four, decode_rune, runes_after, runes,
}

decode_two-le : (p : ℕ) (s : Bytes) → p < 0xE0 → (decode_two p s).0 ≤ 0x10FFFF
unfolding decode_two
decode_two-le p [] h = omega arith
decode_two-le p (b ∷ s) h = ground arith

decode_three-le : (p : ℕ) (s : Bytes) → p < 0xF0 → (decode_three p s).0 ≤ 0x10FFFF
unfolding decode_three second_ok
decode_three-le p [] h = omega arith
decode_three-le p (b ∷ []) h = omega arith
decode_three-le p (b ∷ c ∷ s) h = ground arith

second_ok_four : (p b : ℕ) → p ≤ 0xF4 → second_ok p b ≡ true → (p - 0xF0) * 64 + (b - 0x80) ≤ 0x10F
unfolding second_ok
second_ok_four p b h k = ground arith

four_le :
    (p b c d : ℕ)
    → p ≤ 0xF4
    → second_ok p b && between 0x80 0xBF c && between 0x80 0xBF d ≡ true
    → (p - 0xF0) * 262144 + (b - 0x80) * 4096 + (c - 0x80) * 64 + (d - 0x80) ≤ 0x10FFFF
four_le p b c d h k = ground (arith, second_ok_four p b)

decode_four-le : (p : ℕ) (s : Bytes) → p ≤ 0xF4 → (decode_four p s).0 ≤ 0x10FFFF
unfolding decode_four
decode_four-le p [] h = omega arith
decode_four-le p (b ∷ []) h = omega arith
decode_four-le p (b ∷ c ∷ []) h = omega arith
decode_four-le p (b ∷ c ∷ d ∷ s) h =
    elim (Bool-cases (second_ok p b && between 0x80 0xBF c && between 0x80 0xBF d)) [
      | inl fits ↦ rw fits (four_le p b c d h fits)
      | inr bad ↦ rw bad (omega arith)
    ]

decode_rune-le : (p : ℕ) (s : Bytes) → (decode_rune p s).0 ≤ 0x10FFFF
unfolding decode_rune
decode_rune-le p s = ground (arith, decode_two-le p s, decode_three-le p s, decode_four-le p s)

-- Every decoded rune is at most U+10FFFF, whatever the bytes.
runes_after-le : (skip : ℕ) (s : Bytes) → All (λ r. r ≤ 0x10FFFF) (runes_after skip s)
unfolding runes_after
runes_after-le skip [] = tt
runes_after-le (suc skip) (b ∷ s) = runes_after-le skip s
runes_after-le zero (b ∷ s) = (decode_rune-le b s, runes_after-le ((decode_rune b s).1 - 1) s)

runes-le : (s : Bytes) → All (λ r. r ≤ 0x10FFFF) (runes s)
unfolding runes
runes-le s = runes_after-le 0 s

decode_rune_ascii : (p : ℕ) (s : Bytes) → p < 0x80 → decode_rune p s ≡ (p, 1)
unfolding decode_rune
decode_rune_ascii p s h = ground arith

runes_after_ascii : (s : Bytes) → All (λ b. b < 0x80) s → runes_after 0 s ≡ s
unfolding runes_after
runes_after_ascii [] h = refl
runes_after_ascii (b ∷ s) h =
    rw (decode_rune_ascii b s h.0) (ap (λ t. b ∷ t) (runes_after_ascii s h.1))

pub runes_ascii : (s : Bytes) → All (λ b. b < 0x80) s → runes s ≡ s
unfolding runes
runes_ascii s h = runes_after_ascii s h

pub runes-ne-nil : (b : ℕ) (s : Bytes) → runes (b ∷ s) ≢ []
unfolding runes runes_after
runes-ne-nil b s e = cc

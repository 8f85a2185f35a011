-- ===== src/Go/Utf8.antt =====
-- UTF-8 as Go decodes it (`for _, r := range s`): an invalid byte is U+FFFD, one byte wide.
pub mod Laws
use id_core.Prelude.{
  ℕ, zero, suc, ◌+◌, ◌-◌, ◌*◌, Bool, ◌&&◌, List, [], ◌∷◌, ltb, leb, ◌==◌, if◌then◌else◌,
}
use id_core.Go.Bytes.{Bytes}

abbrev pub between : ℕ → ℕ → ℕ → Bool
between lo hi b = leb lo b && leb b hi

abbrev pub rune_error : ℕ
rune_error = 0xFFFD

-- The range of the second byte, which excludes overlong forms, surrogates and what is too large.
unfoldable pub second_ok : ℕ → ℕ → Bool
second_ok p b =
    if p == 0xE0
    then between 0xA0 0xBF b
    else if p == 0xED
    then between 0x80 0x9F b
    else if p == 0xF0
    then between 0x90 0xBF b
    else if p == 0xF4
    then between 0x80 0x8F b
    else between 0x80 0xBF b

unfoldable pub decode_two : ℕ → Bytes → ℕ × ℕ
decode_two p [] = (rune_error, 1)
decode_two p (b ∷ s) =
    if between 0x80 0xBF b then ((p - 0xC0) * 64 + (b - 0x80), 2) else (rune_error, 1)

unfoldable pub decode_three : ℕ → Bytes → ℕ × ℕ
decode_three p [] = (rune_error, 1)
decode_three p (b ∷ []) = (rune_error, 1)
decode_three p (b ∷ c ∷ s) =
    if second_ok p b && between 0x80 0xBF c
    then ((p - 0xE0) * 4096 + (b - 0x80) * 64 + (c - 0x80), 3)
    else (rune_error, 1)

unfoldable pub decode_four : ℕ → Bytes → ℕ × ℕ
decode_four p [] = (rune_error, 1)
decode_four p (b ∷ []) = (rune_error, 1)
decode_four p (b ∷ c ∷ []) = (rune_error, 1)
decode_four p (b ∷ c ∷ d ∷ s) =
    if second_ok p b && between 0x80 0xBF c && between 0x80 0xBF d
    then ((p - 0xF0) * 262144 + (b - 0x80) * 4096 + (c - 0x80) * 64 + (d - 0x80), 4)
    else (rune_error, 1)

-- The first rune of `p ∷ s` and its width in bytes.
unfoldable pub decode_rune : ℕ → Bytes → ℕ × ℕ
decode_rune p s =
    if ltb p 0x80
    then (p, 1)
    else if ltb p 0xC2
    then (rune_error, 1)
    else if ltb p 0xE0
    then decode_two p s
    else if ltb p 0xF0
    then decode_three p s
    else if leb p 0xF4
    then decode_four p s
    else (rune_error, 1)

-- The runes of a string, after `skip` bytes that belong to the rune before.
unfoldable pub runes_after : ℕ → Bytes → List ℕ
unfolding decode_rune
runes_after skip [] = []
runes_after (suc skip) (b ∷ s) = runes_after skip s
runes_after zero (b ∷ s) = let (r, width) = decode_rune b s in r ∷ runes_after (width - 1) s

unfoldable pub runes : Bytes → List ℕ
runes s = runes_after 0 s

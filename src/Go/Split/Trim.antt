-- ===== src/Go/Split/Trim.antt =====
-- strings.TrimRight by one byte.
use id_core.Prelude.{ℕ, ◌≢◌, Option, none, some, [], ◌∷◌, arith, ◌==◌, if◌then◌else◌}
use id_core.Go.Bytes.{Bytes}
use id_core.Go.Split.{trim_right}

abbrev pub last_byte : Bytes → Option ℕ
last_byte [] = none
last_byte (c ∷ []) = some c
last_byte (c ∷ d ∷ s) = last_byte (d ∷ s)

pub trim_right-last_byte : (s : Bytes) (cut : ℕ) → last_byte (trim_right s cut) ≢ some cut
unfolding trim_right
trim_right-last_byte [] cut e = cc
trim_right-last_byte (c ∷ s) cut e = last (trim_right s cut) (trim_right-last_byte s cut) e
  where
    last :
        (t : Bytes)
        → last_byte t ≢ some cut
        → last_byte (elim t [ [] ↦ if c == cut then [] else c ∷ [] | d ∷ u ↦ c ∷ d ∷ u ]) ≢ some cut
    last [] h k = ground arith
    last (d ∷ u) h k = h k

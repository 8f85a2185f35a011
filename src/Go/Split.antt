-- ===== src/Go/Split.antt =====
-- strings.Split by one byte, strings.Join by one byte, and strings.TrimRight by one byte.
pub mod Laws
pub mod Trim
use id_core.Prelude.{ℕ, List, [], ◌∷◌, ◌++◌, ◌==◌, if◌then◌else◌}
use id_core.Go.Bytes.{Bytes}

-- Puts a byte in front of the first part.
abbrev pub cons_head : ℕ → List Bytes → List Bytes
cons_head c [] = (c ∷ []) ∷ []
cons_head c (p ∷ ps) = (c ∷ p) ∷ ps

unfoldable pub split : Bytes → ℕ → List Bytes
split [] sep = [] ∷ []
split (c ∷ s) sep = let rest = split s sep in if c == sep then [] ∷ rest else cons_head c rest

unfoldable pub join : List Bytes → ℕ → Bytes
join [] sep = []
join (p ∷ []) sep = p
join (p ∷ q ∷ ps) sep = p ++ (sep ∷ join (q ∷ ps) sep)

-- Drops the trailing bytes that equal `cut`.
unfoldable pub trim_right : Bytes → ℕ → Bytes
trim_right [] cut = []
trim_right (c ∷ s) cut = elim (trim_right s cut) [
  | [] ↦ if c == cut then [] else c ∷ []
  | d ∷ t ↦ c ∷ d ∷ t
]

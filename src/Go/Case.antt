-- ===== src/Go/Case.antt =====
-- strings.ToLower. Beyond ASCII the table of the unicode package is the parameter `unicode_lower`.
use id_core.Prelude.{
  ℕ, ◌+◌, ◌≡◌, Bool, ◌&&◌, List, [], ◌∷◌, ◌++◌, map, arith, ltb, leb, all, if◌then◌else◌,
}
use id_core.Go.Bytes.{Bytes, encode_rune}
use id_core.Go.Utf8.{runes}

abbrev pub lower_ascii : ℕ → ℕ
lower_ascii c = if leb b'A' c && leb c b'Z' then c + 32 else c

abbrev pub is_ascii : Bytes → Bool
is_ascii = all (λ c. ltb c 0x80)

abbrev pub flat_map : (ℕ → Bytes) → List ℕ → Bytes
flat_map f [] = []
flat_map f (r ∷ rs) = f r ++ flat_map f rs

module _ (unicode_lower : ℕ → ℕ) where
  abbrev pub lower_rune : ℕ → ℕ
  lower_rune r = if ltb r 0x80 then lower_ascii r else unicode_lower r

  unfoldable pub to_lower : Bytes → Bytes
  unfolding runes
  to_lower s =
      if is_ascii s then map lower_ascii s else flat_map (λ r. encode_rune (lower_rune r)) (runes s)

lower_ascii_idem : (c : ℕ) → lower_ascii (lower_ascii c) ≡ lower_ascii c
lower_ascii_idem c = ground arith

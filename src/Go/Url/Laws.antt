-- ===== src/Go/Url/Laws.antt =====
-- Decoding, and what an encoded component lacks.
use id_core.Prelude.{
  ℕ, sym, ◌+◌, ◌-◌, ◌*◌, ◌/◌, ◌%◌, ◌<◌, ◌≡◌, refl, ap, subst, ◌∙◌, ==_iff, Bool, true, false, ◌&&◌,
  ◌||◌, some, [], ◌∷◌, arith, All, leb, ◌==◌, if◌then◌else◌, Bool-cases, inl, inr,
}
use id_core.Go.Bytes.{Bytes, contains_byte}
use id_core.Go.Split.Laws.{Lacks}
use id_core.Go.Url.{
  upper_hex_digit, escape, is_unreserved, is_hex, unhex, cons_some, plus_to_space, query_escape,
  query_unescape,
}

abbrev unhex_digit : ℕ → ℕ
unhex_digit d = if leb d b'9' then d - b'0' else d - b'A' + 10

-- The bytes that stand behind an encoded component.
unfoldable pub percent_decode : Bytes → Bytes
percent_decode [] = []
percent_decode (c ∷ []) = c ∷ []
percent_decode (c ∷ a ∷ []) = c ∷ a ∷ []
percent_decode (c ∷ a ∷ b ∷ s) =
    let escaped = (unhex_digit a * 16 + unhex_digit b) ∷ percent_decode s in
    let plain = c ∷ percent_decode (a ∷ b ∷ s) in if c == b'%' then escaped else plain

percent_decode-plain :
    (c : ℕ) (s : Bytes) → (c == b'%') ≡ false → percent_decode (c ∷ s) ≡ c ∷ percent_decode s
unfolding percent_decode
percent_decode-plain c [] h = refl
percent_decode-plain c (a ∷ []) h = refl
percent_decode-plain c (a ∷ b ∷ s) h = rw h refl

unhex-upper :
    (c : ℕ)
    → c < 256
    → unhex_digit (upper_hex_digit (c / 16)) * 16 + unhex_digit (upper_hex_digit (c % 16)) ≡ c
unhex-upper c small = ground arith

percent_decode-coded :
    (c : ℕ) (s : Bytes)
    → c < 256
    → percent_decode (b'%' ∷ upper_hex_digit (c / 16) ∷ upper_hex_digit (c % 16) ∷ s)
      ≡ c ∷ percent_decode s
unfolding percent_decode
percent_decode-coded c s small = ap (λ d. d ∷ percent_decode s) (unhex-upper c small)

kept-ne : (keep : ℕ → Bool) (c b : ℕ) → keep c ≡ true → keep b ≡ false → (c == b) ≡ false
kept-ne keep c b kept coded = elim (Bool-cases (c == b)) [
  | inl same ↦
      let e : c ≡ b = (==_iff c b).0 same in
      let both : keep b ≡ true = subst (λ d. keep d ≡ true) e kept in cc (both, coded)
  | inr other ↦ other
]

-- A decoded component is what was encoded, if '%' is encoded.
pub percent_decode-escape :
    (keep : ℕ → Bool) (s : Bytes)
    → keep b'%' ≡ false
    → All (λ c. c < 256) s
    → percent_decode (escape keep s) ≡ s
unfolding escape
percent_decode-escape keep [] h small = unfold percent_decode in refl
percent_decode-escape keep (c ∷ s) h small =
    let ih = percent_decode-escape keep s h small.1 in
    elim (Bool-cases (keep c)) [
      | inl kept ↦
          rw kept (percent_decode-plain c _ (kept-ne keep c b'%' kept h) ∙ ap (λ t. c ∷ t) ih)
      | inr coded ↦ rw coded (percent_decode-coded c _ small.0 ∙ ap (λ t. c ∷ t) ih)
    ]

upper_hex_digit-ne :
    (d b : ℕ)
    → d < 16
    → ((leb b'0' b && leb b b'9') || (leb b'A' b && leb b b'F')) ≡ false
    → (upper_hex_digit d == b) ≡ false
upper_hex_digit-ne d b small h = ground arith

-- A byte that is encoded, and that is no '%' and no hexadecimal digit, does not stand in the code.
pub escape-Lacks :
    (keep : ℕ → Bool) (b : ℕ) (s : Bytes)
    → keep b ≡ false
    → (b == b'%') ≡ false
    → ((leb b'0' b && leb b b'9') || (leb b'A' b && leb b b'F')) ≡ false
    → All (λ c. c < 256) s
    → Lacks b (escape keep s)
unfolding escape contains_byte
escape-Lacks keep b [] coded mark digit small = refl
escape-Lacks keep b (c ∷ s) coded mark digit small =
    let ih = escape-Lacks keep b s coded mark digit small.1 in
    elim (Bool-cases (keep c)) [
      | inl kept ↦ rw (kept, kept-ne keep c b kept coded) ih
      | inr out ↦
          let high = upper_hex_digit-ne (c / 16) b (omega (arith, small.0)) digit in
          let low = upper_hex_digit-ne (c % 16) b (omega arith) digit in
          rw (out, high, low) (ground (arith, ih))
    ]

query_unescape-plain :
    (c : ℕ) (s : Bytes)
    → (c == b'%') ≡ false
    → query_unescape (c ∷ s) ≡ cons_some (plus_to_space c) (query_unescape s)
unfolding query_unescape
query_unescape-plain c [] h = rw h refl
query_unescape-plain c (a ∷ []) h = rw h refl
query_unescape-plain c (a ∷ b ∷ s) h = rw h refl

hex-upper :
    (c : ℕ)
    → c < 256
    → (is_hex (upper_hex_digit (c / 16)) && is_hex (upper_hex_digit (c % 16))) ≡ true
hex-upper c small = ground arith

unhex-upper_query :
    (c : ℕ) → c < 256 → unhex (upper_hex_digit (c / 16)) * 16 + unhex (upper_hex_digit (c % 16)) ≡ c
unhex-upper_query c small = ground arith

query_unescape-coded :
    (c : ℕ) (s : Bytes)
    → c < 256
    → query_unescape (b'%' ∷ upper_hex_digit (c / 16) ∷ upper_hex_digit (c % 16) ∷ s)
      ≡ cons_some c (query_unescape s)
unfolding query_unescape
query_unescape-coded c s small =
    rw (hex-upper c small) (ap (λ d. cons_some d (query_unescape s)) (unhex-upper_query c small))

unreserved-plain : (c : ℕ) → is_unreserved c ≡ true → ((c == b'%') ≡ false) × (plus_to_space c ≡ c)
unreserved-plain c h =
    (kept-ne is_unreserved c b'%' h refl, rw (kept-ne is_unreserved c b'+' h refl) refl)

-- A value in a query reads back.
pub query_unescape-escape :
    (s : Bytes) → All (λ c. c < 256) s → query_unescape (query_escape s) ≡ some s
unfolding query_escape
query_unescape-escape [] small = unfold query_unescape in refl
query_unescape-escape (c ∷ s) small =
    let ih = query_unescape-escape s small.1 in
    elim (Bool-cases (is_unreserved c)) [
      | inl kept ↦
          let (plain, same) = unreserved-plain c kept in
          rw (kept, query_unescape-plain c (query_escape s) plain, ih, same) refl
      | inr coded ↦ elim (Bool-cases (c == b' ')) [
        | inl space ↦
            rw (coded, space, query_unescape-plain b'+' (query_escape s) refl, ih)
              (ap (λ d. some (d ∷ s)) (sym ((==_iff c b' ').0 space)))
        | inr other ↦ rw (coded, other, query_unescape-coded c (query_escape s) small.0, ih) refl
      ]
    ]

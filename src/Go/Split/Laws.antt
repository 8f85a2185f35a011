-- ===== src/Go/Split/Laws.antt =====
-- Splitting and joining undo one another.
use id_core.Prelude.{
  ℕ, zero, suc, take, ◌≡◌, refl, ◌≢◌, false, List, [], ◌∷◌, ◌++◌, arith, ◌==◌, All, Bool-cases, inl,
  inr,
}
use id_core.Go.Bytes.{Bytes, contains_byte}
use id_core.Go.Split.{cons_head, split, join}

pub split-ne-nil : (s : Bytes) (b : ℕ) → split s b ≢ []
unfolding split
split-ne-nil [] b e = cc
split-ne-nil (c ∷ s) b e = ground arith

join-cons_head :
    (c : ℕ) (parts : List Bytes) (b : ℕ) → join (cons_head c parts) b ≡ c ∷ join parts b
unfolding join
join-cons_head c [] b = refl
join-cons_head c (p ∷ []) b = refl
join-cons_head c (p ∷ q ∷ parts) b = refl

join-nil : (parts : List Bytes) (b : ℕ) → parts ≢ [] → join ([] ∷ parts) b ≡ b ∷ join parts b
unfolding join
join-nil [] b h = absurd (h refl)
join-nil (p ∷ parts) b h = refl

join-split : (s : Bytes) (b : ℕ) → join (split s b) b ≡ s
unfolding split
join-split [] b = unfold join in refl
join-split (c ∷ s) b = ground (
  arith,
  join-split s b,
  join-cons_head c (split s b) b,
  join-nil (split s b) b,
  split-ne-nil s b,
)

abbrev pub Lacks : ℕ → Bytes → Type 0
Lacks b s = contains_byte b s ≡ false

cons_head-Lacks :
    (c : ℕ) (parts : List Bytes) (b : ℕ)
    → (c == b) ≡ false
    → All (Lacks b) parts
    → All (Lacks b) (cons_head c parts)
unfolding contains_byte
cons_head-Lacks c [] b ne h = ground arith
cons_head-Lacks c (p ∷ parts) b ne h = ground arith

pub split-Lacks : (s : Bytes) (b : ℕ) → All (Lacks b) (split s b)
unfolding split contains_byte
split-Lacks [] b = ground arith
split-Lacks (c ∷ s) b = elim (Bool-cases (c == b)) [
  | inl same ↦ rw same (refl, split-Lacks s b)
  | inr ne ↦ rw ne (cons_head-Lacks c (split s b) b ne (split-Lacks s b))
]

split_one : (p : Bytes) (b : ℕ) → Lacks b p → split p b ≡ p ∷ []
unfolding split contains_byte
split_one [] b h = refl
split_one (c ∷ p) b h = ground (arith, split_one p b)

split-append : (p s : Bytes) (b : ℕ) → Lacks b p → split (p ++ (b ∷ s)) b ≡ p ∷ split s b
unfolding split contains_byte
split-append [] s b h = ground arith
split-append (c ∷ p) s b h = ground (arith, split-append p s b)

split-join :
    (p : Bytes) (parts : List Bytes) (b : ℕ)
    → All (Lacks b) (p ∷ parts)
    → split (join (p ∷ parts) b) b ≡ p ∷ parts
unfolding join
split-join p [] b h = split_one p b h.0
split-join p (q ∷ parts) b h =
    ground (arith, split-append p (join (q ∷ parts) b) b h.0, split-join q parts b h.1)

pub Lacks-append : (b : ℕ) (s t : Bytes) → Lacks b s → Lacks b t → Lacks b (s ++ t)
unfolding contains_byte
Lacks-append b [] t h k = k
Lacks-append b (c ∷ s) t h k = ground (arith, Lacks-append b s t)

pub Lacks-take : (b n : ℕ) (s : Bytes) → Lacks b s → Lacks b (take n s)
unfolding contains_byte
Lacks-take b zero s h = refl
Lacks-take b (suc n) [] h = refl
Lacks-take b (suc n) (c ∷ s) h = ground (arith, Lacks-take b n s)

pub split-join-All :
    (parts : List Bytes) (b : ℕ) → parts ≢ [] → All (Lacks b) parts → split (join parts b) b ≡ parts
split-join-All [] b ne h = absurd (ne refl)
split-join-All (p ∷ parts) b ne h = split-join p parts b h

-- ===== src/Apperror/Store/Cells.antt =====
-- Reading back what has been written to a store, and the parts of an array.
use id_core.Prelude.{
  ℕ, ◌+◌, ◌≤◌, ◌<◌, some, List, [], ◌∷◌, ◌++◌, take, drop, length, length-take, length-drop, ◌≡◌,
  ◌≢◌, refl, ap, arith, ==_refl, ==_false,
}
use id_core.Apperror.Store.{Word, Cell, Store, write, allocate, set}

pub write_self : (s : Store) (p : ℕ) (c : Cell) → (write s p c).cell p ≡ some c
write_self s p c = rw (==_refl p) refl

pub write-other : (s : Store) (p q : ℕ) (c : Cell) → q ≢ p → (write s p c).cell q ≡ s.cell q
write-other s p q c ne = rw (==_false q p ne) refl

pub allocate_self : (c : Cell) (s : Store) → (allocate c s).cell s.next ≡ some c
allocate_self c s = rw (==_refl s.next) refl

pub allocate-old : (c : Cell) (s : Store) (q : ℕ) → q < s.next → (allocate c s).cell q ≡ s.cell q
allocate-old c s q h = rw (==_false q s.next (λ e. omega (arith, h, e))) refl

pub set-append :
    (begun : List Word) (v w : Word) (rest : List Word)
    → set (begun ++ v ∷ rest) (length begun) w ≡ (begun ++ w ∷ []) ++ rest
set-append [] v w rest = refl
set-append (x ∷ begun) v w rest = ap (λ l. x ∷ l) (set-append begun v w rest)

pub length-slice :
    (len offset : ℕ) (items : List Word)
    → offset + len ≤ length items
    → length (take len (drop offset items)) ≡ len
length-slice len offset items h =
    omega (arith, length-take len (drop offset items), length-drop offset items)

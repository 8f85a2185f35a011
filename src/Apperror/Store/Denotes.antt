-- ===== src/Apperror/Store/Denotes.antt =====
-- The tree that a value in memory stands for, with the addresses that it goes through.
use id_core.Prelude.{ℕ, suc, ◌+◌, ◌≤◌, some, List, [], ◌∷◌, take, drop, length, ◌≡◌, ◌∙◌}
use id_core.Go.Bytes.{Bytes}
use id_core.Go.Any.{Any, object, array, Items, nil, cons, Fields, end, field}
use id_core.Apperror.Store.{
  Scalar, null, bool, number, str, other, Word, scalar, nil_map, nil_slice, map_at, slice_at,
  map_cell, array_cell, Store,
}

abbrev pub of_scalar : Scalar → Any
of_scalar null = Any.null
of_scalar (bool b) = Any.bool b
of_scalar (number t) = Any.number t
of_scalar (str t) = Any.str t
of_scalar (other n) = Any.other n

-- `Denotes P s w a`: w stands for the tree a, and every address on the way satisfies P. A tree is
-- finite, so no map or slice holds itself.
unfoldable mutual
  pub Denotes : (ℕ → Type 0) → Store → Word → Any → Type 0
  Denotes P s w (object fs) =
      (p : ℕ) × (entries : List (Bytes × Word)) × (w ≡ map_at p)
      × P p
      × (s.cell p ≡ some (map_cell entries))
      × DenotesFields P s entries fs
  Denotes P s w (array xs) =
      (p : ℕ) × (offset : ℕ) × (len : ℕ) × (items : List Word) × (w ≡ slice_at p offset len)
      × P p
      × (s.cell p ≡ some (array_cell items))
      × (offset + len ≤ length items)
      × DenotesItems P s (take len (drop offset items)) xs
  Denotes P s w Any.nil_map = w ≡ nil_map
  Denotes P s w Any.nil_slice = w ≡ nil_slice
  Denotes P s w v = (x : Scalar) × (w ≡ scalar x) × (of_scalar x ≡ v)

  pub DenotesFields : (ℕ → Type 0) → Store → List (Bytes × Word) → Fields → Type 0
  DenotesFields P s [] end = Unit
  DenotesFields P s ((k, w) ∷ entries) (field j v fs) =
      (k ≡ j) × Denotes P s w v × DenotesFields P s entries fs
  DenotesFields P s _ _ = ⊥

  pub DenotesItems : (ℕ → Type 0) → Store → List Word → Items → Type 0
  DenotesItems P s [] nil = Unit
  DenotesItems P s (w ∷ ws) (cons v xs) = Denotes P s w v × DenotesItems P s ws xs
  DenotesItems P s _ _ = ⊥

-- The addresses of a value under P keep what they hold, and satisfy Q.
abbrev pub Keeps : (ℕ → Type 0) → (ℕ → Type 0) → Store → Store → Type 0
Keeps P Q s t = (p : ℕ) → P p → Q p × (t.cell p ≡ s.cell p)

-- A value stands for its tree in every store that has kept its addresses.
mutual
  unfolding Denotes

  pub Denotes-kept :
      (P Q : ℕ → Type 0) (s t : Store) (w : Word) (a : Any)
      → Keeps P Q s t
      → Denotes P s w a
      → Denotes Q t w a
  Denotes-kept P Q s t w (object fs) keeps (p, entries, e, h, held, below) =
      let (q, same) = keeps p h in
      (p, entries, e, q, same ∙ held, DenotesFields-kept P Q s t entries fs keeps below)
  Denotes-kept P Q s t w (array xs) keeps (p, offset, len, items, e, h, held, inside, below) =
      let (q, same) = keeps p h in
      (
        p,
        offset,
        len,
        items,
        e,
        q,
        same ∙ held,
        inside,
        DenotesItems-kept P Q s t (take len (drop offset items)) xs keeps below,
      )
  Denotes-kept P Q s t w Any.nil_map keeps d = d
  Denotes-kept P Q s t w Any.nil_slice keeps d = d
  Denotes-kept P Q s t w v keeps d = d

  pub DenotesFields-kept :
      (P Q : ℕ → Type 0) (s t : Store) (entries : List (Bytes × Word)) (fs : Fields)
      → Keeps P Q s t
      → DenotesFields P s entries fs
      → DenotesFields Q t entries fs
  DenotesFields-kept P Q s t [] end keeps d = tt
  DenotesFields-kept P Q s t ((k, w) ∷ entries) (field j v fs) keeps (e, head, rest) =
      (e, Denotes-kept P Q s t w v keeps head, DenotesFields-kept P Q s t entries fs keeps rest)
  DenotesFields-kept P Q s t [] (field j v fs) keeps d = absurd d
  DenotesFields-kept P Q s t ((k, w) ∷ entries) end keeps d = absurd d

  pub DenotesItems-kept :
      (P Q : ℕ → Type 0) (s t : Store) (ws : List Word) (xs : Items)
      → Keeps P Q s t
      → DenotesItems P s ws xs
      → DenotesItems Q t ws xs
  DenotesItems-kept P Q s t [] nil keeps d = tt
  DenotesItems-kept P Q s t (w ∷ ws) (cons v xs) keeps (head, rest) =
      (Denotes-kept P Q s t w v keeps head, DenotesItems-kept P Q s t ws xs keeps rest)
  DenotesItems-kept P Q s t [] (cons v xs) keeps d = absurd d
  DenotesItems-kept P Q s t (w ∷ ws) nil keeps d = absurd d

-- The number of the values of a tree.
unfoldable mutual
  pub size : Any → ℕ
  size (object fs) = suc (size_fields fs)
  size (array xs) = suc (size_items xs)
  size v = 1

  pub size_fields : Fields → ℕ
  size_fields end = 0
  size_fields (field k v fs) = size v + size_fields fs

  pub size_items : Items → ℕ
  size_items nil = 0
  size_items (cons v xs) = size v + size_items xs

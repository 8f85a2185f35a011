-- ===== src/Apperror/Store/Ends.antt =====
-- For which details the recursion of cloneDetails ends.
use id_core.Prelude.{
  ℕ, zero, suc, ◌+◌, ◌≤◌, ◌<◌, ◌≡◌, refl, ◌∙◌, subst, arith, ◌↔◌, Option, none, some, List, [], ◌∷◌,
  take, drop, length, All, ok, Yields, >>=-Yields,
}
use id_core.Go.Bytes.{Bytes}
use id_core.Go.Any.{Any, object, array, Items, nil, cons, Fields, end, field}
use id_core.Apperror.Store.{
  Scalar, null, bool, number, str, other, Word, scalar, nil_map, nil_slice, map_at, slice_at, Cell,
  map_cell, array_cell, Store, StoredError, allocate, replicate, put_entry, put_item, Cloning,
  clone_entries, clone_items, clone_value, with_details,
}
use id_core.Apperror.Store.Denotes.{Denotes, DenotesFields, DenotesItems, of_scalar, size}
use id_core.Apperror.Store.Cells.{allocate-old}
use id_core.Apperror.Store.Isolated.{Allocated, with_details-ends}
use id_core.Apperror.Store.Spares.{
  Spares, Sparing, put_entry-Spares, put_item-Spares, clone_value-Sparing,
}

-- What Go's types say of a value and of a cell: an address holds what its type says, and a slice lies
-- within its array.
abbrev pub IsSound : Store → Word → Type 0
IsSound s (map_at p) =
    (p < s.next) × ((entries : List (Bytes × Word)) × (s.cell p ≡ some (map_cell entries)))
IsSound s (slice_at p offset len) =
    (p < s.next)
    × ((items : List Word) × (s.cell p ≡ some (array_cell items)) × (offset + len ≤ length items))
IsSound s _ = Unit

abbrev pub IsSoundCell : Store → Option Cell → Type 0
IsSoundCell s none = Unit
IsSoundCell s (some (map_cell entries)) = All (λ e. IsSound s e.1) entries
IsSoundCell s (some (array_cell items)) = All (IsSound s) items

pub record IsSoundStore (s : Store) : Type 0 where
  pub cells : (p : ℕ) → p < s.next → IsSoundCell s (s.cell p)

-- A later store that has kept the cells of `s`.
record Agrees (s u : Store) : Type 0 where
  grows : s.next ≤ u.next
  same : (q : ℕ) → q < s.next → u.cell q ≡ s.cell q

Agrees-Spares :
    (s u late : Store) (out : ℕ) → Agrees s u → s.next ≤ out → Spares out u late → Agrees s late
Agrees-Spares s u late out a above f = record {
  grows = omega (arith, a.grows, f.grows);
  same = λ q h. f.old q (omega (arith, h, a.grows)) (λ e. omega (arith, h, above, e)) ∙ a.same q h;
}

allocate-Agrees : (s u : Store) (c : Cell) → Agrees s u → Agrees s (allocate c u)
allocate-Agrees s u c a = record {
  grows = omega (arith, a.grows);
  same = λ q h. allocate-old c u q (omega (arith, h, a.grows)) ∙ a.same q h;
}

All-take : (P : Word → Type 0) (n : ℕ) (ws : List Word) → All P ws → All P (take n ws)
All-take P zero ws h = tt
All-take P (suc n) [] h = tt
All-take P (suc n) (w ∷ ws) h = (h.0, All-take P n ws h.1)

All-drop : (P : Word → Type 0) (n : ℕ) (ws : List Word) → All P ws → All P (drop n ws)
All-drop P zero ws h = h
All-drop P (suc n) [] h = tt
All-drop P (suc n) (w ∷ ws) h = All-drop P n ws h.1

scalar_stands : (s : Store) (x : Scalar) → Denotes (Allocated s) s (scalar x) (of_scalar x)
unfolding Denotes
scalar_stands s null = (null, refl, refl)
scalar_stands s (bool b) = (bool b, refl, refl)
scalar_stands s (number t) = (number t, refl, refl)
scalar_stands s (str t) = (str t, refl, refl)
scalar_stands s (other n) = (other n, refl, refl)

module _ (s : Store) (sound : IsSoundStore s) where
  -- A clone that ends has gone through a finite tree.
  abbrev Finds : Cloning → Type 0
  Finds clone =
      (w : Word) (u : Store)
      → IsSound s w
      → Agrees s u
      → Yields (λ r. (a : Any) × Denotes (Allocated s) s w a) (clone w u)

  module _ (clone : Cloning) (spares : Sparing clone) (finds : Finds clone) (out : ℕ)
      (above : s.next ≤ out) where
    clone_entries-Finds :
        (entries : List (Bytes × Word)) (u : Store)
        → All (λ e. IsSound s e.1) entries
        → Agrees s u
        → Yields
            (λ late. (fs : Fields) × DenotesFields (Allocated s) s entries fs)
            (clone_entries clone out entries u)
    unfolding clone_entries Denotes
    clone_entries-Finds [] u h a = λ late e. (end, tt)
    clone_entries-Finds ((k, v) ∷ entries) u h a =
        let P : Store → Type 0 =
          λ late. (fs : Fields) × DenotesFields (Allocated s) s ((k, v) ∷ entries) fs in
        >>=-Yields P (clone v u) _ λ r ran.
          >>=-Yields P (put_entry out k r.0 r.1) _ λ written put late rest.
            let copied = Agrees-Spares s u r.1 out a above (spares v u r ran out) in
            let after =
              Agrees-Spares s r.1 written out copied above
                (put_entry-Spares out k r.0 r.1 written put) in
            let (b, head) = finds v u h.0 a r ran in
            let (fs, tail) = clone_entries-Finds entries written h.1 after late rest in
            (field k b fs, (refl, head, tail))

    clone_items-Finds :
        (items : List Word) (i : ℕ) (u : Store)
        → All (IsSound s) items
        → Agrees s u
        → Yields
            (λ late. (xs : Items) × DenotesItems (Allocated s) s items xs)
            (clone_items clone out i items u)
    unfolding clone_items Denotes
    clone_items-Finds [] i u h a = λ late e. (nil, tt)
    clone_items-Finds (v ∷ items) i u h a =
        let P : Store → Type 0 =
          λ late. (xs : Items) × DenotesItems (Allocated s) s (v ∷ items) xs in
        >>=-Yields P (clone v u) _ λ r ran.
          >>=-Yields P (put_item out i r.0 r.1) _ λ written put late rest.
            let copied = Agrees-Spares s u r.1 out a above (spares v u r ran out) in
            let after =
              Agrees-Spares s r.1 written out copied above
                (put_item-Spares out i r.0 r.1 written put) in
            let (b, head) = finds v u h.0 a r ran in
            let (xs, tail) = clone_items-Finds items (suc i) written h.1 after late rest in
            (cons b xs, (head, tail))

  clone_value-Finds : (n : ℕ) → Finds (clone_value n)
  unfolding clone_value Denotes
  clone_value-Finds zero w u h a = λ r e. cc
  clone_value-Finds (suc n) (scalar x) u h a = λ r e. (of_scalar x, scalar_stands s x)
  clone_value-Finds (suc n) nil_map u h a = λ r e. (Any.nil_map, refl)
  clone_value-Finds (suc n) nil_slice u h a = λ r e. (Any.nil_slice, refl)
  clone_value-Finds (suc n) (map_at p) u (below, (entries, held)) a =
      let P : Word × Store → Type 0 = λ r. (b : Any) × Denotes (Allocated s) s (map_at p) b in
      rw (a.same p below, held)
        (>>=-Yields P (clone_entries (clone_value n) u.next entries (allocate (map_cell []) u)) _
          λ late ran r e.
            let cells : All (λ e. IsSound s e.1) entries =
              subst (IsSoundCell s) held (sound.cells p below) in
            let (fs, stand) =
              clone_entries-Finds (clone_value n) (clone_value-Sparing n) (clone_value-Finds n)
                u.next a.grows entries (allocate (map_cell []) u) cells
                (allocate-Agrees s u (map_cell []) a) late ran in
            (object fs, (p, entries, refl, below, held, stand)))
  clone_value-Finds (suc n) (slice_at p offset len) u (below, (items, held, inside)) a =
      let P : Word × Store → Type 0 =
        λ r. (b : Any) × Denotes (Allocated s) s (slice_at p offset len) b in
      let from = take len (drop offset items) in
      let start = allocate (array_cell (replicate len)) u in
      rw (a.same p below, held)
        (>>=-Yields P (clone_items (clone_value n) u.next 0 from start) _ λ late ran r e.
          let cells : All (IsSound s) items = subst (IsSoundCell s) held (sound.cells p below) in
          let (xs, stand) =
            clone_items-Finds (clone_value n) (clone_value-Sparing n) (clone_value-Finds n) u.next
              a.grows from 0 start
              (All-take (IsSound s) len (drop offset items)
                (All-drop (IsSound s) offset items cells))
              (allocate-Agrees s u (array_cell (replicate len)) a) late ran in
          (array xs, (p, offset, len, items, refl, below, held, inside, stand)))

-- WithDetails ends, after however many calls, exactly when its argument is a finite tree in memory:
-- no map or slice of the details holds itself, at any depth.
pub with_details_ends_iff :
    (e : StoredError) (w : Word) (s : Store)
    → IsSoundStore s
    → IsSound s w
    → ((fuel : ℕ) × (r : StoredError × Store) × (with_details fuel e w s ≡ ok r))
      ↔ ((a : Any) × Denotes (Allocated s) s w a)
unfolding with_details
with_details_ends_iff e w s sound h = (
  λ (fuel, r, ran).
      >>=-Yields (λ _. (a : Any) × Denotes (Allocated s) s w a) (clone_value fuel w s) _
        (λ c copied _ _.
          clone_value-Finds s sound fuel w s h
            (record { grows = omega arith; same = λ q below. refl }) c copied)
        r ran,
  λ (a, d).
      let (own, late, ran, stands, old) = with_details-ends (size a) e w a s (omega arith) d in
      (size a, (record e { details = own }, late), ran),
)

-- ===== src/Apperror/Store/Clone.antt =====
-- What the copy of a value in memory is.
use id_core.Prelude.{
  ℕ, zero, suc, ◌+◌, ◌≤◌, ◌<◌, some, List, [], take, drop, length, take-all, ◌≡◌, refl, sym, ◌∙◌,
  ap, subst, arith,
}
use id_core.Go.Bytes.{Bytes}
use id_core.Go.Any.{Any, object, array, Items, Fields}
use id_core.Apperror.{
  clone_value as pure_value, clone_items as pure_items, clone_fields as pure_fields,
}
use id_core.Apperror.Store.{
  Scalar, null, bool, number, str, other, Word, scalar, nil_map, nil_slice, map_at, slice_at, Cell,
  map_cell, array_cell, Store, allocate, replicate, clone_value,
}
use id_core.Apperror.Store.Denotes.{
  Denotes, DenotesFields, DenotesItems, of_scalar, Keeps, DenotesFields-kept, DenotesItems-kept,
  size, size_fields, size_items,
}
use id_core.Apperror.Store.Cells.{allocate_self, allocate-old, length-slice}
use id_core.Apperror.Store.Loops.{
  New, Cloned, Copier, rest-Keeps, clone_entries-FilledMap, clone_items-FilledArray,
}

size-pos : (a : Any) → 0 < size a
unfolding size
size-pos (object fs) = omega arith
size-pos a = omega arith

module _ (n : ℕ) (copy : Copier n) (P : ℕ → Type 0) (s : Store)
    (bound : (p : ℕ) → P p → p < s.next) where
  begun-Keeps : (c : Cell) → Keeps P P s (allocate c s)
  begun-Keeps c p h = (h, allocate-old c s p (bound p h))

  map-Cloned :
      (p : ℕ) (entries : List (Bytes × Word)) (fs : Fields)
      → size_fields fs ≤ n
      → s.cell p ≡ some (map_cell entries)
      → DenotesFields P s entries fs
      → Cloned (clone_value (suc n)) s (map_at p) (object fs)
  unfolding clone_value Denotes pure_value
  map-Cloned p entries fs small held below =
      let start = allocate (map_cell []) s in
      let f =
        clone_entries-FilledMap n copy P s.next bound entries fs start [] small (omega arith)
          (allocate_self (map_cell []) s)
          (DenotesFields-kept P P s start entries fs (begun-Keeps (map_cell [])) below) in
      record {
        word = map_at s.next;
        late = f.late;
        ran = rw (held, f.ran) refl;
        grows = omega (arith, f.grows);
        old = λ q h.
            f.old q (omega (arith, h)) (λ e. omega (arith, h, e))
            ∙ allocate-old (map_cell []) s q h;
        stands = (
          s.next,
          f.added,
          refl,
          (omega arith, omega (arith, f.grows)),
          f.held,
          DenotesFields-kept (New (suc s.next) f.late.next) (New s.next f.late.next) f.late f.late
              f.added (pure_fields fs) (rest-Keeps s.next (suc s.next) f.late (omega arith))
              f.stand,
        );
      }

  slice-Cloned :
      (p offset len : ℕ) (items : List Word) (xs : Items)
      → size_items xs ≤ n
      → s.cell p ≡ some (array_cell items)
      → offset + len ≤ length items
      → DenotesItems P s (take len (drop offset items)) xs
      → Cloned (clone_value (suc n)) s (slice_at p offset len) (array xs)
  unfolding clone_value Denotes pure_value
  slice-Cloned p offset len items xs small held inside below =
      let cell = array_cell (replicate len) in
      let start = allocate cell s in
      let from = take len (drop offset items) in
      let count = length-slice len offset items inside in
      let f =
        clone_items-FilledArray n copy P s.next bound from xs start 0 [] small (omega arith) refl
          (allocate_self cell s ∙ ap (λ k. some (array_cell (replicate k))) (sym count))
          (DenotesItems-kept P P s start from xs (begun-Keeps cell) below) in
      let whole = take-all len f.added (f.count ∙ count) in
      record {
        word = slice_at s.next 0 len;
        late = f.late;
        ran = rw (held, f.ran) refl;
        grows = omega (arith, f.grows);
        old =
            λ q h. f.old q (omega (arith, h)) (λ e. omega (arith, h, e)) ∙ allocate-old cell s q h;
        stands = (
          s.next,
          0,
          len,
          f.added,
          refl,
          (omega arith, omega (arith, f.grows)),
          f.held,
          omega (arith, f.count, count),
          subst (λ l. DenotesItems (New s.next f.late.next) f.late l (pure_items xs)) (sym whole)
              (DenotesItems-kept (New (suc s.next) f.late.next) (New s.next f.late.next) f.late
                f.late f.added (pure_items xs) (rest-Keeps s.next (suc s.next) f.late (omega arith))
                f.stand),
        );
      }

scalar-Denotes :
    (P : ℕ → Type 0) (s : Store) (x : Scalar) → Denotes P s (scalar x) (pure_value (of_scalar x))
unfolding Denotes pure_value
scalar-Denotes P s null = (null, refl, refl)
scalar-Denotes P s (bool b) = (bool b, refl, refl)
scalar-Denotes P s (number t) = (number t, refl, refl)
scalar-Denotes P s (str t) = (str t, refl, refl)
scalar-Denotes P s (other k) = (other k, refl, refl)

scalar-Cloned :
    (n : ℕ) (s : Store) (x : Scalar) → Cloned (clone_value (suc n)) s (scalar x) (of_scalar x)
unfolding clone_value Denotes pure_value
scalar-Cloned n s x = record {
  word = scalar x;
  late = s;
  ran = refl;
  grows = omega arith;
  old = λ q h. refl;
  stands = scalar-Denotes (New s.next s.next) s x;
}

any_scalar-Cloned :
    (n : ℕ) (s : Store) (w : Word) (a : Any)
    → (x : Scalar) × (w ≡ scalar x) × (of_scalar x ≡ a)
    → Cloned (clone_value (suc n)) s w a
any_scalar-Cloned n s w a (x, e, f) =
    subst (λ u. Cloned (clone_value (suc n)) s u a) (sym e)
      (subst (λ b. Cloned (clone_value (suc n)) s (scalar x) b) f (scalar-Cloned n s x))

nil_map-Cloned : (n : ℕ) (s : Store) → Cloned (clone_value (suc n)) s nil_map Any.nil_map
unfolding clone_value Denotes pure_value
nil_map-Cloned n s = record {
  word = nil_map;
  late = s;
  ran = refl;
  grows = omega arith;
  old = λ q h. refl;
  stands = refl;
}

nil_slice-Cloned : (n : ℕ) (s : Store) → Cloned (clone_value (suc n)) s nil_slice Any.nil_slice
unfolding clone_value Denotes pure_value
nil_slice-Cloned n s = record {
  word = slice_at s.next 0 0;
  late = allocate (array_cell []) s;
  ran = refl;
  grows = omega arith;
  old = λ q h. allocate-old (array_cell []) s q h;
  stands = (
    s.next,
    0,
    0,
    [],
    refl,
    (omega arith, omega arith),
    allocate_self (array_cell []) s,
    omega arith,
    tt,
  );
}

-- With at least as much fuel as the tree has values, the copy ends.
pub clone_value-Cloned :
    (n : ℕ) (P : ℕ → Type 0) (s : Store) (w : Word) (a : Any)
    → size a ≤ n
    → ((p : ℕ) → P p → p < s.next)
    → Denotes P s w a
    → Cloned (clone_value n) s w a
unfolding Denotes size
clone_value-Cloned zero P s w a small bound d = absurd (omega (arith, small, size-pos a))
clone_value-Cloned (suc n) P s w (object fs) small bound (p, entries, e, h, held, below) =
    subst (λ v. Cloned (clone_value (suc n)) s v (object fs)) (sym e)
      (map-Cloned n (clone_value-Cloned n) P s bound p entries fs (omega (arith, small)) held below)
clone_value-Cloned (suc n) P s w (array xs) small bound
      (p, offset, len, items, e, h, held, inside, below) =
    subst (λ v. Cloned (clone_value (suc n)) s v (array xs)) (sym e)
      (slice-Cloned n (clone_value-Cloned n) P s bound p offset len items xs (omega (arith, small))
        held inside below)
clone_value-Cloned (suc n) P s w Any.nil_map small bound d =
    subst (λ v. Cloned (clone_value (suc n)) s v Any.nil_map) (sym d) (nil_map-Cloned n s)
clone_value-Cloned (suc n) P s w Any.nil_slice small bound d =
    subst (λ v. Cloned (clone_value (suc n)) s v Any.nil_slice) (sym d) (nil_slice-Cloned n s)
clone_value-Cloned (suc n) P s w Any.null small bound d = any_scalar-Cloned n s w _ d
clone_value-Cloned (suc n) P s w (Any.bool b) small bound d = any_scalar-Cloned n s w _ d
clone_value-Cloned (suc n) P s w (Any.number t) small bound d = any_scalar-Cloned n s w _ d
clone_value-Cloned (suc n) P s w (Any.str t) small bound d = any_scalar-Cloned n s w _ d
clone_value-Cloned (suc n) P s w (Any.other k) small bound d = any_scalar-Cloned n s w _ d

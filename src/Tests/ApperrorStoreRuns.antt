-- ===== src/Tests/ApperrorStoreRuns.antt =====
-- core/internal/apperror on details in memory: a map with two slices of one array, and a map that
-- holds itself.
use id_core.Prelude.{
  ℕ, zero, suc, Option, none, some, List, [], ◌∷◌, ◌≡◌, ◌≢◌, refl, sym, subst, arith, ◌↔◌, Result,
  ok, err,
}
use id_core.Go.Bytes.{Bytes, bytes}
use id_core.Go.Any.{Any, object, array, nil, cons, Fields, end, field}
use id_core.Apperror.{clone_value as pure_value}
use id_core.Apperror.Store.{
  null, str, Word, scalar, map_at, slice_at, Cell, map_cell, array_cell, Store, StoredError, write,
  Stuck, clone_value, clone_entries, clone_items, with_details, get_details,
}
use id_core.Apperror.Store.Denotes.{Denotes, DenotesFields, size}
use id_core.Apperror.Store.Cells.{write-other}
use id_core.Apperror.Store.Loops.{New}
use id_core.Apperror.Store.Isolated.{Allocated, Leaves, with_details-ends, get_details-isolated}
use id_core.Apperror.Store.Ends.{IsSoundCell, IsSoundStore, with_details_ends_iff}

abbrev refused : StoredError
refused = record {
  code = bytes "INVALID_REQUEST";
  message = bytes "bad";
  details = Word.nil_map;
  cause = none;
}

abbrev letters : List Word
letters = scalar (str (bytes "a")) ∷ scalar (str (bytes "b")) ∷ scalar null ∷ []

abbrev slices : List (Bytes × Word)
slices = (bytes "xs", slice_at 0 1 2) ∷ (bytes "ys", slice_at 0 0 2) ∷ []

abbrev shared_cell : ℕ → Option Cell
shared_cell zero = some (array_cell letters)
shared_cell (suc zero) = some (map_cell slices)
shared_cell _ = none

abbrev shared : Store
shared = record { next = 2; cell = shared_cell }

abbrev tree : Any
tree = object (
    field (bytes "xs") (array (cons (Any.str (bytes "b")) (cons Any.null nil))) (
      field (bytes "ys") (array (cons (Any.str (bytes "a")) (cons (Any.str (bytes "b")) nil))) end))

shared-Denotes : Denotes (Allocated shared) shared (map_at 1) tree
unfolding Denotes
shared-Denotes = (
  1,
  slices,
  refl,
  omega arith,
  refl,
  (
    refl,
    (
      0,
      1,
      2,
      letters,
      refl,
      omega arith,
      refl,
      omega arith,
      ((str (bytes "b"), refl, refl), ((null, refl, refl), tt)),
    ),
    (
      refl,
      (
        0,
        0,
        2,
        letters,
        refl,
        omega arith,
        refl,
        omega arith,
        ((str (bytes "a"), refl, refl), ((str (bytes "b"), refl, refl), tt)),
      ),
      tt,
    ),
  ),
)

cells-IsSound : (p : ℕ) → IsSoundCell shared (shared.cell p)
cells-IsSound zero = (tt, (tt, (tt, tt)))
cells-IsSound (suc zero) =
    ((omega arith, (letters, refl, omega arith)), ((omega arith, (letters, refl, omega arith)), tt))
cells-IsSound (suc (suc p)) = tt

shared-IsSound : IsSoundStore shared
shared-IsSound = record { cells = λ p below. cells-IsSound p }

abbrev outcome : Result Stuck (StoredError × Store) → StoredError × Store
outcome (ok r) = r
outcome (err _) = (refused, shared)

abbrev detailed : StoredError × Store
detailed = outcome (with_details 7 refused (map_at 1) shared)

detailed-ran : with_details 7 refused (map_at 1) shared ≡ ok (detailed.0, detailed.1)
unfolding with_details clone_value clone_entries clone_items
detailed-ran = refl

-- The caller writes to the array that both slices of its details share.
abbrev written : Store
written = write detailed.1 0 (array_cell [])

with_details-ends_example :
    (own : Word) × (late : Store) × (with_details 7 refused (map_at 1) shared
      ≡ ok (record refused { details = own }, late))
    × Denotes (New 2 late.next) late own (pure_value tree)
    × Leaves shared late
unfolding size
with_details-ends_example =
    with_details-ends 7 refused (map_at 1) tree shared (omega arith) shared-Denotes

get_details-isolated_example :
    (word : Word) × (after : Store) × (get_details 7 detailed.0 written ≡ ok (word, after))
    × Denotes (New written.next after.next) after word (pure_value tree)
    × Leaves written after
unfolding size
get_details-isolated_example =
    get_details-isolated 7 refused detailed.0 (map_at 1) tree shared detailed.1 written
      (omega arith) shared-Denotes detailed-ran (omega arith)
      (λ p h. write-other detailed.1 0 p (array_cell []) (λ e. omega (arith, h.0, e)))

with_details_ends_iff_example :
    ((fuel : ℕ) × (r : StoredError × Store) × (with_details fuel refused (map_at 1) shared ≡ ok r))
    ↔ ((a : Any) × Denotes (Allocated shared) shared (map_at 1) a)
with_details_ends_iff_example =
    with_details_ends_iff refused (map_at 1) shared shared-IsSound (omega arith, (slices, refl))

abbrev itself : List (Bytes × Word)
itself = (bytes "me", map_at 0) ∷ []

abbrev loop_cell : ℕ → Option Cell
loop_cell zero = some (map_cell itself)
loop_cell (suc p) = none

abbrev loop : Store
loop = record { next = 1; cell = loop_cell }

itself_only :
    (fs : Fields) (entries : List (Bytes × Word))
    → some (map_cell itself) ≡ some (map_cell entries)
    → DenotesFields (Allocated loop) loop entries fs
    → DenotesFields (Allocated loop) loop itself fs
itself_only fs entries held below =
    let same : itself ≡ entries = cc in
    subst (λ l. DenotesFields (Allocated loop) loop l fs) (sym same) below

-- A map that holds itself is no tree.
loop-endless : (a : Any) → Denotes (Allocated loop) loop (map_at 0) a → ⊥
unfolding Denotes
loop-endless (object end) (zero, entries, e, h, held, below) = itself_only end entries held below
loop-endless (object (field k v fs)) (zero, entries, e, h, held, below) =
    loop-endless v (itself_only (field k v fs) entries held below).1
loop-endless (object end) (suc p, entries, e, h, held, below) = absurd (omega (arith, h))
loop-endless (object (field k v fs)) (suc p, entries, e, h, held, below) = absurd (omega (arith, h))
loop-endless (array xs) (p, offset, len, items, e, h, held, inside, below) = cc
loop-endless Any.nil_map d = cc
loop-endless Any.nil_slice d = cc
loop-endless Any.null (x, e, d) = cc
loop-endless (Any.bool b) (x, e, d) = cc
loop-endless (Any.number n) (x, e, d) = cc
loop-endless (Any.str s) (x, e, d) = cc
loop-endless (Any.other n) (x, e, d) = cc

loop_cells-IsSound : (p : ℕ) → IsSoundCell loop (loop.cell p)
loop_cells-IsSound zero = ((omega arith, (itself, refl)), tt)
loop_cells-IsSound (suc p) = tt

loop-IsSound : IsSoundStore loop
loop-IsSound = record { cells = λ p below. loop_cells-IsSound p }

-- Whatever the fuel, WithDetails of such a map does not end.
with_details-loop :
    (fuel : ℕ) (r : StoredError × Store) → with_details fuel refused (map_at 0) loop ≢ ok r
with_details-loop fuel r ran =
    let (a, d) =
      (with_details_ends_iff refused (map_at 0) loop loop-IsSound (omega arith, (itself, refl))).0
        (fuel, r, ran) in
    loop-endless a d

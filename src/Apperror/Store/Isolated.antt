-- ===== src/Apperror/Store/Isolated.antt =====
-- The details of a coded error are its own.
use id_core.Prelude.{ℕ, suc, ◌≤◌, ◌<◌, ◌≡◌, refl, sym, ap, ◌∙◌, subst, arith, ok, ok-injective}
use id_core.Go.Any.{Any, object, array, Items, nil, cons, Fields, end, field}
use id_core.Apperror.{
  clone_value as pure_value, clone_items as pure_items, clone_fields as pure_fields,
}
use id_core.Apperror.Laws.{clone_value_idem}
use id_core.Apperror.Store.{Word, Store, StoredError, with_details, get_details}
use id_core.Apperror.Store.Denotes.{Denotes, Denotes-kept, size, size_fields, size_items}
use id_core.Apperror.Store.Loops.{New}
use id_core.Apperror.Store.Clone.{clone_value-Cloned}

mutual
  unfolding size pure_value

  size-clone : (a : Any) → size (pure_value a) ≡ size a
  size-clone (object fs) = ap suc (size-clone_fields fs)
  size-clone (array xs) = ap suc (size-clone_items xs)
  size-clone Any.nil_slice = refl
  size-clone a = refl

  size-clone_fields : (fs : Fields) → size_fields (pure_fields fs) ≡ size_fields fs
  size-clone_fields end = refl
  size-clone_fields (field k v fs) = omega (arith, size-clone v, size-clone_fields fs)

  size-clone_items : (xs : Items) → size_items (pure_items xs) ≡ size_items xs
  size-clone_items nil = refl
  size-clone_items (cons v xs) = omega (arith, size-clone v, size-clone_items xs)

abbrev pub Allocated : Store → ℕ → Type 0
Allocated s p = p < s.next

-- Every cell of `s` is as it was.
abbrev pub Leaves : Store → Store → Type 0
Leaves s t = (q : ℕ) → q < s.next → t.cell q ≡ s.cell q

-- WithDetails of details that are a finite tree in memory ends, with at least as much fuel as the
-- tree has values. The new error has its details at addresses that were free before, there they are
-- the tree that clone_details gives, all else of the error is as it was, and so is every cell of
-- before.
pub with_details-ends :
    (fuel : ℕ) (e : StoredError) (w : Word) (a : Any) (s : Store)
    → size a ≤ fuel
    → Denotes (Allocated s) s w a
    → (own : Word) × (late : Store) × (with_details fuel e w s
        ≡ ok (record e { details = own }, late))
      × Denotes (New s.next late.next) late own (pure_value a)
      × Leaves s late
unfolding with_details
with_details-ends fuel e w a s enough d =
    let c = clone_value-Cloned fuel (Allocated s) s w a enough (λ p h. h) d in
    (c.word, c.late, rw c.ran refl, c.stands, c.old)

-- Whatever has been written in the meantime, to the maps and slices that the caller passed to
-- WithDetails, to any other cell of then, or to later ones: as long as the cells that WithDetails
-- made are untouched, Details gives the tree of the details as they were when WithDetails was
-- called. It gives it at addresses that were free, so that a caller of Details who writes to what it
-- gets leaves those cells untouched again.
pub get_details-isolated :
    (fuel : ℕ) (e own : StoredError) (w : Word) (a : Any) (s late now : Store)
    → size a ≤ fuel
    → Denotes (Allocated s) s w a
    → with_details fuel e w s ≡ ok (own, late)
    → late.next ≤ now.next
    → ((p : ℕ) → New s.next late.next p → now.cell p ≡ late.cell p)
    → (word : Word) × (after : Store) × (get_details fuel own now ≡ ok (word, after))
      × Denotes (New now.next after.next) after word (pure_value a)
      × Leaves now after
unfolding get_details
get_details-isolated fuel e own w a s late now enough d set grown untouched =
    let (word, then_late, ran, stands, old) = with_details-ends fuel e w a s enough d in
    let same = ok-injective (sym ran ∙ set) in
    let error : record e { details = word } ≡ own = ap (λ r. r.0) same in
    let store : then_late ≡ late = ap (λ r. r.1) same in
    let stands_late : Denotes (New s.next late.next) late word (pure_value a) =
      subst (λ t. Denotes (New s.next t.next) t word (pure_value a)) store stands in
    let stands_now =
      Denotes-kept (New s.next late.next) (Allocated now) late now word (pure_value a)
        (λ p h. (omega (arith, h.1, grown), untouched p h)) stands_late in
    let stands_own =
      subst (λ r. Denotes (Allocated now) now r.details (pure_value a)) error stands_now in
    let c =
      clone_value-Cloned fuel (Allocated now) now own.details (pure_value a)
        (omega (arith, enough, size-clone a)) (λ p h. h) stands_own in
    (
      c.word,
      c.late,
      c.ran,
      subst (λ b. Denotes (New now.next c.late.next) c.late c.word b) (clone_value_idem a) c.stands,
      c.old,
    )

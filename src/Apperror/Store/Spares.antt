-- ===== src/Apperror/Store/Spares.antt =====
-- What a clone that ends leaves as it was.
use id_core.Prelude.{
  ℕ, zero, suc, ◌≤◌, ◌<◌, ◌≡◌, ◌≢◌, refl, ◌∙◌, arith, List, [], ◌∷◌, take, drop, Yields, >>=-Yields,
  ok-Yields,
}
use id_core.Go.Bytes.{Bytes}
use id_core.Apperror.Store.{
  Word, scalar, nil_map, nil_slice, map_at, slice_at, Cell, map_cell, array_cell, Store, allocate,
  entries_of, items_of, replicate, put_entry, put_item, Cloning, clone_entries, clone_items,
  clone_value,
}
use id_core.Apperror.Store.Cells.{write-other, allocate-old}

-- No cell of before but `out` has changed.
pub record Spares (out : ℕ) (s late : Store) : Type 0 where
  pub grows : s.next ≤ late.next
  pub old : (q : ℕ) → q < s.next → q ≢ out → late.cell q ≡ s.cell q

Spares-trans : (out : ℕ) (s t late : Store) → Spares out s t → Spares out t late → Spares out s late
Spares-trans out s t late f g = record {
  grows = omega (arith, f.grows, g.grows);
  old = λ q h ne. g.old q (omega (arith, h, f.grows)) ne ∙ f.old q h ne;
}

pub put_entry-Spares :
    (out : ℕ) (k : Bytes) (w : Word) (s : Store) → Yields (Spares out s) (put_entry out k w s)
put_entry-Spares out k w s = >>=-Yields (Spares out s) (entries_of (s.cell out)) _ λ entries _.
    ok-Yields (Spares out s) _
      (record { grows = omega arith; old = λ q h ne. write-other s out q _ ne })

pub put_item-Spares :
    (out i : ℕ) (w : Word) (s : Store) → Yields (Spares out s) (put_item out i w s)
put_item-Spares out i w s = >>=-Yields (Spares out s) (items_of (s.cell out)) _ λ items _.
    ok-Yields (Spares out s) _
      (record { grows = omega arith; old = λ q h ne. write-other s out q _ ne })

-- A clone that ends changes no cell of before.
abbrev pub Sparing : Cloning → Type 0
Sparing clone = (w : Word) (s : Store) → Yields (λ r. (out : ℕ) → Spares out s r.1) (clone w s)

module _ (clone : Cloning) (spares : Sparing clone) (out : ℕ) where
  clone_entries-Spares :
      (entries : List (Bytes × Word)) (s : Store)
      → Yields (Spares out s) (clone_entries clone out entries s)
  unfolding clone_entries
  clone_entries-Spares [] s =
      ok-Yields (Spares out s) s (record { grows = omega arith; old = λ q h ne. refl })
  clone_entries-Spares ((k, v) ∷ entries) s = >>=-Yields (Spares out s) (clone v s) _ λ r ran.
      >>=-Yields (Spares out s) (put_entry out k r.0 r.1) _ λ written put late rest.
        Spares-trans out s r.1 late (spares v s r ran out) (
          Spares-trans out r.1 written late (put_entry-Spares out k r.0 r.1 written put)
            (clone_entries-Spares entries written late rest))

  clone_items-Spares :
      (items : List Word) (i : ℕ) (s : Store)
      → Yields (Spares out s) (clone_items clone out i items s)
  unfolding clone_items
  clone_items-Spares [] i s =
      ok-Yields (Spares out s) s (record { grows = omega arith; old = λ q h ne. refl })
  clone_items-Spares (v ∷ items) i s = >>=-Yields (Spares out s) (clone v s) _ λ r ran.
      >>=-Yields (Spares out s) (put_item out i r.0 r.1) _ λ written put late rest.
        Spares-trans out s r.1 late (spares v s r ran out) (
          Spares-trans out r.1 written late (put_item-Spares out i r.0 r.1 written put)
            (clone_items-Spares items (suc i) written late rest))

-- A loop that fills a new cell leaves all old ones.
allocated-Spares :
    (c : Cell) (s late : Store) (out : ℕ) → Spares s.next (allocate c s) late → Spares out s late
allocated-Spares c s late out f = record {
  grows = omega (arith, f.grows);
  old = λ q h ne. f.old q (omega (arith, h)) (λ e. omega (arith, h, e)) ∙ allocate-old c s q h;
}

pub clone_value-Sparing : (n : ℕ) → Sparing (clone_value n)
unfolding clone_value
clone_value-Sparing zero w s = λ r h. cc
clone_value-Sparing (suc n) (scalar x) s =
    ok-Yields (λ r. (out : ℕ) → Spares out s r.1) _
      (λ out. record { grows = omega arith; old = λ q h ne. refl })
clone_value-Sparing (suc n) nil_map s =
    ok-Yields (λ r. (out : ℕ) → Spares out s r.1) _
      (λ out. record { grows = omega arith; old = λ q h ne. refl })
clone_value-Sparing (suc n) nil_slice s =
    ok-Yields (λ r. (out : ℕ) → Spares out s r.1) _
      (λ out. record { grows = omega arith; old = λ q h ne. allocate-old (array_cell []) s q h })
clone_value-Sparing (suc n) (map_at p) s =
    let P : Word × Store → Type 0 = λ r. (out : ℕ) → Spares out s r.1 in
    >>=-Yields P (entries_of (s.cell p)) _ λ entries _.
      >>=-Yields P (clone_entries (clone_value n) s.next entries (allocate (map_cell []) s)) _
        λ late ran. ok-Yields P _ λ out. allocated-Spares (map_cell []) s late out (
          clone_entries-Spares (clone_value n) (clone_value-Sparing n) s.next entries
            (allocate (map_cell []) s) late ran)
clone_value-Sparing (suc n) (slice_at p offset len) s =
    let P : Word × Store → Type 0 = λ r. (out : ℕ) → Spares out s r.1 in
    >>=-Yields P (items_of (s.cell p)) _ λ items _.
      >>=-Yields P
        (clone_items (clone_value n) s.next 0 (take len (drop offset items))
          (allocate (array_cell (replicate len)) s))
        _
        λ late ran. ok-Yields P _ λ out. allocated-Spares (array_cell (replicate len)) s late out (
          clone_items-Spares (clone_value n) (clone_value-Sparing n) s.next
            (take len (drop offset items)) 0 (allocate (array_cell (replicate len)) s) late ran)

-- ===== src/Apperror/Store/Loops.antt =====
-- The two loops of the copy of a value in memory, with the copy of one value given.
use id_core.Prelude.{
  ℕ, suc, ◌≤◌, ◌<◌, some, List, [], ◌∷◌, ◌++◌, length, length-append, ◌≡◌, ◌≢◌, refl, sym, ◌∙◌, ap,
  append_assoc, append-nil, arith, ok,
}
use id_core.Go.Bytes.{Bytes}
use id_core.Go.Any.{Any, Items, nil, cons, Fields, end, field}
use id_core.Apperror.{
  clone_value as pure_value, clone_items as pure_items, clone_fields as pure_fields,
}
use id_core.Apperror.Store.{
  null, Word, scalar, map_cell, array_cell, Store, write, set, replicate, Cloning, clone_entries,
  clone_items, clone_value,
}
use id_core.Apperror.Store.Denotes.{
  Denotes, DenotesFields, DenotesItems, Keeps, Denotes-kept, DenotesFields-kept, DenotesItems-kept,
  size, size_fields, size_items,
}
use id_core.Apperror.Store.Cells.{write_self, write-other, set-append}

abbrev pub New : ℕ → ℕ → ℕ → Type 0
New lo hi p = (lo ≤ p) × (p < hi)

-- A copy: it ends, it leaves the old addresses as they are, and it stands at new ones for the copied
-- tree.
pub record Cloned (clone : Cloning) (s : Store) (w : Word) (a : Any) : Type 0 where
  pub word : Word
  pub late : Store
  pub ran : clone w s ≡ ok (word, late)
  pub grows : s.next ≤ late.next
  pub old : (q : ℕ) → q < s.next → late.cell q ≡ s.cell q
  pub stands : Denotes (New s.next late.next) late word (pure_value a)

-- The loop over entries has filled the map at `out`.
pub record FilledMap (clone : Cloning) (out : ℕ) (entries : List (Bytes × Word)) (u : Store)
    (begun : List (Bytes × Word)) (fs : Fields) : Type 0 where
  pub late : Store
  pub added : List (Bytes × Word)
  pub ran : clone_entries clone out entries u ≡ ok late
  pub grows : u.next ≤ late.next
  pub old : (q : ℕ) → q < u.next → q ≢ out → late.cell q ≡ u.cell q
  pub held : late.cell out ≡ some (map_cell (begun ++ added))
  pub stand : DenotesFields (New u.next late.next) late added (pure_fields fs)

-- The loop over items has filled the array at `out` from the index i on.
pub record FilledArray (clone : Cloning) (out i : ℕ) (items : List Word) (u : Store)
    (begun : List Word) (xs : Items) : Type 0 where
  pub late : Store
  pub added : List Word
  pub ran : clone_items clone out i items u ≡ ok late
  pub grows : u.next ≤ late.next
  pub old : (q : ℕ) → q < u.next → q ≢ out → late.cell q ≡ u.cell q
  pub held : late.cell out ≡ some (array_cell (begun ++ added))
  pub count : length added ≡ length items
  pub stand : DenotesItems (New u.next late.next) late added (pure_items xs)

abbrev pub Copier : ℕ → Type 1
Copier n =
    (P : ℕ → Type 0) (s : Store) (w : Word) (a : Any)
    → size a ≤ n
    → ((p : ℕ) → P p → p < s.next)
    → Denotes P s w a
    → Cloned (clone_value n) s w a

-- An entry or an item that has been copied is as it was when the rest of the loop is done.
copied-Keeps :
    (lo : ℕ) (copied written late : Store) (out : ℕ)
    → out < lo
    → ((q : ℕ) → q ≢ out → written.cell q ≡ copied.cell q)
    → copied.next ≤ late.next
    → ((q : ℕ) → q < copied.next → q ≢ out → late.cell q ≡ written.cell q)
    → Keeps (New lo copied.next) (New lo late.next) copied late
copied-Keeps lo copied written late out below wrote grows old p (from, to) =
    let ne : p ≢ out = λ e. omega (arith, from, below, e) in
    ((from, omega (arith, to, grows)), old p to ne ∙ wrote p ne)

pub rest-Keeps :
    (lo mid : ℕ) (late : Store) → lo ≤ mid → Keeps (New mid late.next) (New lo late.next) late late
rest-Keeps lo mid late le p (from, to) = ((omega (arith, from, le), to), refl)

module _ (n : ℕ) (copy : Copier n) (P : ℕ → Type 0) (out : ℕ)
    (bound : (p : ℕ) → P p → p < out) where
  pub clone_entries-FilledMap :
      (entries : List (Bytes × Word)) (fs : Fields) (u : Store) (begun : List (Bytes × Word))
      → size_fields fs ≤ n
      → out < u.next
      → u.cell out ≡ some (map_cell begun)
      → DenotesFields P u entries fs
      → FilledMap (clone_value n) out entries u begun fs
  unfolding clone_entries size Denotes pure_value
  clone_entries-FilledMap [] end u begun small room held d = record {
    late = u;
    added = [];
    ran = refl;
    grows = omega arith;
    old = λ q h ne. refl;
    held = held ∙ ap (λ l. some (map_cell l)) (sym (append-nil begun));
    stand = tt;
  }
  clone_entries-FilledMap ((k, w) ∷ entries) (field j v fs) u begun small room held
        (e, head, rest) =
      let c = copy P u w v (omega (arith, small)) (λ p h. omega (arith, bound p h, room)) head in
      let written = write c.late out (map_cell (begun ++ (k, c.word) ∷ [])) in
      let kept = c.old out room ∙ held in
      let wrote = λ (q : ℕ) (ne : q ≢ out).
        write-other c.late out q (map_cell (begun ++ (k, c.word) ∷ [])) ne in
      let still : Keeps P P u written = λ p h. (
        h,
        wrote p (λ e. omega (arith, bound p h, e)) ∙ c.old p (omega (arith, bound p h, room)),
      ) in
      let r =
        clone_entries-FilledMap entries fs written (begun ++ (k, c.word) ∷ [])
          (omega (arith, small)) (omega (arith, room, c.grows)) (write_self c.late out _)
          (DenotesFields-kept P P u written entries fs still rest) in
      record {
        late = r.late;
        added = (k, c.word) ∷ r.added;
        ran = rw (c.ran, kept) r.ran;
        grows = omega (arith, c.grows, r.grows);
        old = λ q h ne. r.old q (omega (arith, h, c.grows)) ne ∙ wrote q ne ∙ c.old q h;
        held = r.held ∙ ap (λ l. some (map_cell l)) (append_assoc begun ((k, c.word) ∷ []) r.added);
        stand = (
          e,
          Denotes-kept (New u.next c.late.next) (New u.next r.late.next) c.late r.late c.word
              (pure_value v)
              (copied-Keeps u.next c.late written r.late out room wrote r.grows r.old) c.stands,
          DenotesFields-kept (New c.late.next r.late.next) (New u.next r.late.next) r.late r.late
              r.added (pure_fields fs) (rest-Keeps u.next c.late.next r.late c.grows) r.stand,
        );
      }
  clone_entries-FilledMap [] (field j v fs) u begun small room held d = absurd d
  clone_entries-FilledMap ((k, w) ∷ entries) end u begun small room held d = absurd d

  pub clone_items-FilledArray :
      (items : List Word) (xs : Items) (u : Store) (i : ℕ) (begun : List Word)
      → size_items xs ≤ n
      → out < u.next
      → i ≡ length begun
      → u.cell out ≡ some (array_cell (begun ++ replicate (length items)))
      → DenotesItems P u items xs
      → FilledArray (clone_value n) out i items u begun xs
  unfolding clone_items size Denotes pure_value
  clone_items-FilledArray [] nil u i begun small room at held d = record {
    late = u;
    added = [];
    ran = refl;
    grows = omega arith;
    old = λ q h ne. refl;
    held = held;
    count = refl;
    stand = tt;
  }
  clone_items-FilledArray (w ∷ items) (cons v xs) u i begun small room at held (head, rest) =
      let c = copy P u w v (omega (arith, small)) (λ p h. omega (arith, bound p h, room)) head in
      let cell = array_cell ((begun ++ c.word ∷ []) ++ replicate (length items)) in
      let written = write c.late out cell in
      let kept = c.old out room ∙ held in
      let put =
        ap (λ j. set (begun ++ scalar null ∷ replicate (length items)) j c.word) at
        ∙ set-append begun (scalar null) c.word (replicate (length items)) in
      let wrote = λ (q : ℕ) (ne : q ≢ out). write-other c.late out q cell ne in
      let still : Keeps P P u written = λ p h. (
        h,
        wrote p (λ e. omega (arith, bound p h, e)) ∙ c.old p (omega (arith, bound p h, room)),
      ) in
      let r =
        clone_items-FilledArray items xs written (suc i) (begun ++ c.word ∷ [])
          (omega (arith, small)) (omega (arith, room, c.grows))
          (omega (arith, at, length-append begun (c.word ∷ []))) (write_self c.late out cell)
          (DenotesItems-kept P P u written items xs still rest) in
      record {
        late = r.late;
        added = c.word ∷ r.added;
        ran = rw (c.ran, kept, put) r.ran;
        grows = omega (arith, c.grows, r.grows);
        old = λ q h ne. r.old q (omega (arith, h, c.grows)) ne ∙ wrote q ne ∙ c.old q h;
        held = r.held ∙ ap (λ l. some (array_cell l)) (append_assoc begun (c.word ∷ []) r.added);
        count = ap suc r.count;
        stand = (
          Denotes-kept (New u.next c.late.next) (New u.next r.late.next) c.late r.late c.word
              (pure_value v)
              (copied-Keeps u.next c.late written r.late out room wrote r.grows r.old) c.stands,
          DenotesItems-kept (New c.late.next r.late.next) (New u.next r.late.next) r.late r.late
              r.added (pure_items xs) (rest-Keeps u.next c.late.next r.late c.grows) r.stand,
        );
      }
  clone_items-FilledArray [] (cons v xs) u i begun small room at held d = absurd d
  clone_items-FilledArray (w ∷ items) nil u i begun small room at held d = absurd d

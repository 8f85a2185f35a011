-- ===== src/Apperror/Store.antt =====
-- core/internal/apperror/apperror.go with the maps and slices of the details where they are in
-- memory: cloneDetails and cloneValue as allocations and writes, WithDetails and Details on top.
pub mod Denotes
pub mod Cells
pub mod Loops
pub mod Clone
pub mod Isolated
pub mod Spares
pub mod Ends
use id_core.Prelude.{
  ℕ, zero, suc, Bool, Option, none, some, List, [], ◌∷◌, ◌++◌, take, drop, ◌==◌, if◌then◌else◌,
  Result, ok, err, ◌>>=◌,
}
use id_core.Go.Bytes.{Bytes}

-- The values that an assignment copies.
pub data Scalar : Type 0 where
  null : Scalar
  bool : Bool → Scalar
  number : Bytes → Scalar
  str : Bytes → Scalar
  other : ℕ → Scalar

-- A value of the type `any`. A map is the address of its entries; a slice is the address of an array
-- with an offset and a length, so that two slices may share one array.
pub data Word : Type 0 where
  scalar : Scalar → Word
  nil_map nil_slice : Word
  map_at : ℕ → Word
  slice_at : ℕ → ℕ → ℕ → Word

-- The entries of a map stand in the order in which `range` goes through them.
pub data Cell : Type 0 where
  map_cell : List (Bytes × Word) → Cell
  array_cell : List Word → Cell

-- The addresses from `next` on are free.
pub record Store : Type 0 where
  pub next : ℕ
  pub cell : ℕ → Option Cell

abbrev pub write : Store → ℕ → Cell → Store
write s p c = record { next = s.next; cell = λ q. if q == p then some c else s.cell q }

-- `make`: the new address is `s.next`.
abbrev pub allocate : Cell → Store → Store
allocate c s = record { next = suc s.next; cell = λ q. if q == s.next then some c else s.cell q }

-- No run of the code gives an error here: `endless` is fuel that has run out, and `bad_address` a
-- read that Go's types exclude.
pub data Stuck : Type 0 where
  endless bad_address : Stuck

abbrev pub entries_of : Option Cell → Result Stuck (List (Bytes × Word))
entries_of (some (map_cell entries)) = ok entries
entries_of _ = err bad_address

abbrev pub items_of : Option Cell → Result Stuck (List Word)
items_of (some (array_cell items)) = ok items
items_of _ = err bad_address

abbrev pub set : List Word → ℕ → Word → List Word
set [] i w = []
set (x ∷ xs) zero w = w ∷ xs
set (x ∷ xs) (suc i) w = x ∷ set xs i w

abbrev pub replicate : ℕ → List Word
replicate zero = []
replicate (suc n) = scalar null ∷ replicate n

-- `out[k] = w` for a key that is not there yet, and `out[i] = w`.
abbrev pub put_entry : ℕ → Bytes → Word → Store → Result Stuck Store
put_entry p k w s = do
  entries ← entries_of (s.cell p)
  ok (write s p (map_cell (entries ++ (k, w) ∷ [])))

abbrev pub put_item : ℕ → ℕ → Word → Store → Result Stuck Store
put_item p i w s = do items ← items_of (s.cell p); ok (write s p (array_cell (set items i w)))

abbrev pub Cloning : Type 0
Cloning = Word → Store → Result Stuck (Word × Store)

-- The two loops over what is to be copied, with the clone of one value. Neither changes what the
-- loop goes through.
unfoldable pub clone_entries : Cloning → ℕ → List (Bytes × Word) → Store → Result Stuck Store
clone_entries clone out [] s = ok s
clone_entries clone out ((k, v) ∷ entries) s = do
  (w, copied) ← clone v s
  written ← put_entry out k w copied
  clone_entries clone out entries written

unfoldable pub clone_items : Cloning → ℕ → ℕ → List Word → Store → Result Stuck Store
clone_items clone out i [] s = ok s
clone_items clone out i (v ∷ items) s = do
  (w, copied) ← clone v s
  written ← put_item out i w copied
  clone_items clone out (suc i) items written

-- A nil slice gets an array of length 0.
unfoldable pub clone_value : ℕ → Cloning
clone_value zero w s = err endless
clone_value (suc n) (scalar x) s = ok (scalar x, s)
clone_value (suc n) nil_map s = ok (nil_map, s)
clone_value (suc n) nil_slice s = ok (slice_at s.next 0 0, allocate (array_cell []) s)
clone_value (suc n) (map_at p) s = do
  entries ← entries_of (s.cell p)
  late ← clone_entries (clone_value n) s.next entries (allocate (map_cell []) s)
  ok (map_at s.next, late)
clone_value (suc n) (slice_at p offset len) s = do
  items ← items_of (s.cell p)
  late ←
      clone_items (clone_value n) s.next 0 (take len (drop offset items))
        (allocate (array_cell (replicate len)) s)
  ok (slice_at s.next 0 len, late)

-- CodedError with its details in memory: a nil map or an address.
pub record StoredError : Type 0 where
  pub code : Bytes
  pub message : Bytes
  pub details : Word
  pub cause : Option Bytes

unfoldable pub with_details : ℕ → StoredError → Word → Store → Result Stuck (StoredError × Store)
unfolding clone_value
with_details fuel e details s = do
  (w, late) ← clone_value fuel details s
  ok (record e { details = w }, late)

unfoldable pub get_details : ℕ → StoredError → Store → Result Stuck (Word × Store)
unfolding clone_value
get_details fuel e s = clone_value fuel e.details s

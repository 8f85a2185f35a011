-- ===== src/Go/Any.antt =====
-- Values of the type `any` as encoding/json produces them, with the nil map and the nil slice
-- apart from the empty ones. A Go map is the list of its entries.
use id_core.Prelude.{ℕ, Bool}
use id_core.Go.Bytes.{Bytes}

mutual
  pub data Any : Type 0 where
    null : Any
    bool : Bool → Any
    number : Bytes → Any
    str : Bytes → Any
    other : ℕ → Any
    nil_map : Any
    object : Fields → Any
    nil_slice : Any
    array : Items → Any

  pub data Items : Type 0 where
    nil : Items
    cons : Any → Items → Items

  pub data Fields : Type 0 where
    end : Fields
    field : Bytes → Any → Fields → Fields

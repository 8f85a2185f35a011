-- ===== src/Go/Context.antt =====
-- context.Context: the values that context.WithValue adds, newest first. Keys of different Go types
-- differ whatever they hold.
use id_core.Prelude.{ℕ, Bool, false, Option, none, some, List, [], ◌∷◌, ◌==◌, if◌then◌else◌}
use id_core.Go.Bytes.{Bytes, bytes_eq}
use id_core.Go.Any.{Any}

-- `logger.ctxKey{name}`, `middleware.ctxKey{name}`, and the keys of other packages.
pub data CtxKey : Type 0 where
  logger_key middleware_key : Bytes → CtxKey
  other_key : ℕ → CtxKey

abbrev pub key_eq : CtxKey → CtxKey → Bool
key_eq (logger_key a) (logger_key b) = bytes_eq a b
key_eq (middleware_key a) (middleware_key b) = bytes_eq a b
key_eq (other_key a) (other_key b) = a == b
key_eq _ _ = false

abbrev pub Context : Type 0
Context = List (CtxKey × Any)

abbrev pub background : Context
background = []

abbrev pub with_value : Context → CtxKey → Any → Context
with_value ctx k v = (k, v) ∷ ctx

unfoldable pub value : Context → CtxKey → Option Any
unfolding bytes_eq
value [] k = none
value ((j, v) ∷ ctx) k = if key_eq j k then some v else value ctx k

-- ===== src/DevKeyGen/Flags.antt =====
-- The flags -out and -force of core/cmd/devkeygen/main.go, as flag.FlagSet.Parse reads them.
use id_core.Prelude.{
  Bool, true, false, Option, none, some, List, [], ◌∷◌, drop, take, ◌+◌, ◌==◌, ◌||◌, if◌then◌else◌,
}
use id_core.Go.Bytes.{Bytes, bytes, bytes_eq, index_byte}

pub record Options : Type 0 where
  pub out : Bytes
  pub force : Bool

-- strconv.ParseBool.
unfoldable pub parse_bool : Bytes → Option Bool
unfolding bytes_eq
parse_bool s =
    if bytes_eq s (bytes "1")
      || bytes_eq s (bytes "t")
      || bytes_eq s (bytes "T")
      || bytes_eq s (bytes "TRUE")
      || bytes_eq s (bytes "true")
      || bytes_eq s (bytes "True")
    then some true
    else if bytes_eq s (bytes "0")
        || bytes_eq s (bytes "f")
        || bytes_eq s (bytes "F")
        || bytes_eq s (bytes "FALSE")
        || bytes_eq s (bytes "false")
        || bytes_eq s (bytes "False")
    then some false
    else none

-- An argument: the end of the flags (with or without "--"), an error of syntax, or a name with a value.
pub data Argument : Type 0 where
  last wrong : Argument
  named : Bytes → Option Bytes → Argument

-- The '=' is looked for from the second byte of the name on.
unfoldable pub split_value : Bytes → Argument
unfolding index_byte
split_value [] = wrong
split_value (c ∷ s) = if c == b'-' || c == b'=' then wrong else elim (index_byte s b'=') [
  | none ↦ named (c ∷ s) none
  | some i ↦ named (c ∷ take i s) (some (drop (i + 1) s))
]

unfoldable pub read_argument : Bytes → Argument
read_argument [] = last
read_argument (c ∷ []) = last
read_argument (c ∷ d ∷ s) =
    if c == b'-'
    then (if d == b'-'
        then (elim s [ [] ↦ last | e ∷ t ↦ split_value (e ∷ t) ])
        else split_value (d ∷ s))
    else last

abbrev pub set_force : Option Bytes → Options → Option Options
set_force none flags = some (record flags { force = true })
set_force (some v) flags = elim (parse_bool v) [
  | none ↦ none
  | some b ↦ some (record flags { force = b })
]

abbrev pub and_then : Option Options → (Options → Option Options) → Option Options
and_then none rest = none
and_then (some flags) rest = rest flags

-- An unknown flag is an error, as are -help and -h. What follows the flags is not looked at.
unfoldable pub parse_flags : List Bytes → Options → Option Options
unfolding bytes_eq parse_bool read_argument split_value
parse_flags [] flags = some flags
parse_flags (arg ∷ []) flags = elim (read_argument arg) [
  | last ↦ some flags
  | wrong ↦ none
  | named name value ↦
      if bytes_eq name (bytes "force")
      then set_force value flags
      else if bytes_eq name (bytes "out")
      then elim value [ none ↦ none | some v ↦ some (record flags { out = v }) ]
      else none
]
parse_flags (arg ∷ next ∷ args) flags = elim (read_argument arg) [
  | last ↦ some flags
  | wrong ↦ none
  | named name value ↦
      if bytes_eq name (bytes "force")
      then and_then (set_force value flags) (parse_flags (next ∷ args))
      else if bytes_eq name (bytes "out")
      then elim value [
        | none ↦ parse_flags args (record flags { out = next })
        | some v ↦ parse_flags (next ∷ args) (record flags { out = v })
      ]
      else none
]

-- ===== src/Config/Numbers.antt =====
-- The numbers of a loaded configuration.
use id_core.Prelude.{
  ℕ, ◌≤◌, ◌<◌, ◌^◌, Option, none, some, [], ◌∷◌, String, ◌≡◌, refl, subst, ◌≢◌, arith,
  if◌then◌else◌, Result, ok, err, >>=-Yields, map_err,
}
use id_core.Prelude.Int.{ℤ, pos, negsuc, below, to_ℕ}
use id_core.Go.Bytes.{Bytes}
use id_core.Go.Strconv.{atoi, parse_int, int32_half, decimal}
use id_core.Go.Strconv.Laws.{InRange, parse_int-InRange, atoi-decimal, decimal-ne-nil}
use id_core.Config.{
  Environ, Loaded, out_of_range, non_empty, in_range, read_integer, read_int32, or_default,
}
use id_core.Config.Load.{load_port, load_max_age}

pub in_range_bounds :
    (key : String) (lo hi : ℕ) (v : ℤ) (n : ℕ) → in_range key lo hi v ≡ ok n → (lo ≤ n) × (n ≤ hi)
unfolding in_range
in_range_bounds key lo hi (pos m) n h = ground arith
in_range_bounds key lo hi (negsuc m) n h = cc

pub read_integer_bounds :
    (key : String) (lo hi : ℕ) (raw : Bytes) (n : ℕ)
    → read_integer key lo hi raw ≡ ok n
    → (lo ≤ n) × (n ≤ hi)
unfolding read_integer
read_integer_bounds key lo hi raw n h =
    >>=-Yields (λ n. (lo ≤ n) × (n ≤ hi)) (map_err _ (atoi raw)) (in_range key lo hi)
      (λ v _ n. in_range_bounds key lo hi v n) n h

pub map_err-eq-ok :
    {E F A : Type 0} (f : E → F) (r : Result E A) (v : A) → map_err f r ≡ ok v → r ≡ ok v
map_err-eq-ok f (ok a) v h = cc
map_err-eq-ok f (err e) v h = cc

pub non_empty-some : (s : Bytes) → s ≢ [] → non_empty (some s) ≡ some s
non_empty-some [] h = absurd (h refl)
non_empty-some (c ∷ s) h = refl

pub at_least :
    (key : String) (lo : ℕ) (v : ℤ) (n : ℕ)
    → InRange int32_half v
    → (if below v lo then err (out_of_range key v) else ok (to_ℕ v)) ≡ ok n
    → (lo ≤ n) × (n < 2 ^ 31)
at_least key lo (pos m) n fits h = ground arith
at_least key lo (negsuc m) n fits h = cc

pub read_int32_bounds :
    (key : String) (lo : ℕ) (raw : Bytes) (n : ℕ)
    → read_int32 key lo raw ≡ ok n
    → (lo ≤ n) × (n < 2 ^ 31)
unfolding read_int32
read_int32_bounds key lo raw n h =
    >>=-Yields (λ n. (lo ≤ n) × (n < 2 ^ 31)) (map_err _ (parse_int int32_half raw)) _
      (λ v read n. at_least key lo v n (
        parse_int-InRange int32_half raw v (omega arith)
          (map_err-eq-ok _ (parse_int int32_half raw) v read)))
      n h

pub or_default_keeps :
    (P : ℕ → Type 0) (raw : Option Bytes) (def : ℕ) (read : Bytes → Loaded ℕ) (n : ℕ)
    → P def
    → ((s : Bytes) → read s ≡ ok n → P n)
    → or_default raw def read ≡ ok n
    → P n
or_default_keeps P none def read n base step h = subst P (cc) base
or_default_keeps P (some s) def read n base step h = step s h

pub load_port_bounds : (e : Environ) (n : ℕ) → load_port e ≡ ok n → (1 ≤ n) × (n ≤ 65535)
unfolding load_port
load_port_bounds e n h =
    or_default_keeps (λ n. (1 ≤ n) × (n ≤ 65535)) (non_empty (e "CORE_PORT")) 8080 _ n
      (omega arith, omega arith) (λ s. read_integer_bounds "CORE_PORT" 1 65535 s n) h

pub read_integer-decimal :
    (key : String) (lo hi n : ℕ)
    → lo ≤ n
    → n ≤ hi
    → hi < 2 ^ 63
    → read_integer key lo hi (decimal n) ≡ ok n
unfolding read_integer in_range
read_integer-decimal key lo hi n low high small = rw (atoi-decimal n (omega arith)) (ground arith)

-- A port from 1 to 65535 that CORE_PORT holds in decimal is the port that is loaded.
pub load_port-decimal :
    (e : Environ) (n : ℕ)
    → 1 ≤ n
    → n ≤ 65535
    → e "CORE_PORT" ≡ some (decimal n)
    → load_port e ≡ ok n
unfolding load_port
load_port-decimal e n low high set =
    rw (set, non_empty-some (decimal n) (decimal-ne-nil n))
      (read_integer-decimal "CORE_PORT" 1 65535 n low high (omega arith))

pub load_max_age_bounds :
    (e : Environ) (key : String) (def n : ℕ)
    → def ≤ 86400
    → load_max_age e key def ≡ ok n
    → n ≤ 86400
unfolding load_max_age
load_max_age_bounds e key def n small h =
    or_default_keeps (λ n. n ≤ 86400) (non_empty (e key)) def _ n small
      (λ s k. (read_integer_bounds key 0 86400 s n k).1) h

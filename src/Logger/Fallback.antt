-- ===== src/Logger/Fallback.antt =====
-- core/internal/logger/fallback.go. The primary and the fallback are any two writers.
pub mod Delivery
use id_core.Prelude.{
  ℕ, ◌+◌, ◌^◌, ◌%◌, Bool, true, false, ◌&&◌, ltb, ◌==◌, if◌then◌else◌, length, drop,
}
use id_core.Prelude.Int.{ℤ, pos, negsuc}
use id_core.Go.Bytes.{Bytes}

-- An io.Writer with its state: what a Write returns (n, and whether there is an error).
pub record Sink : Type 1 where
  pub State : Type 0
  pub write : Bytes → State → ℤ × Bool × State

-- The clamp of the count to [0, len(p)].
abbrev pub clamp : ℤ → ℕ → ℕ
clamp (negsuc n) len = 0
clamp (pos n) len = if ltb len n then len else n

abbrev pub equals : ℤ → ℕ → Bool
equals (pos n) m = n == m
equals (negsuc n) m = false

module _ (primary fallback : Sink) where
  -- `drops` is the atomic counter, an int64 as its bit pattern.
  pub record FallbackWriter : Type 0 where
    pub first : primary.State
    pub second : fallback.State
    pub drops : ℕ

  -- `stderr` is the state of os.Stderr.
  abbrev pub new_fallback_writer : primary.State → fallback.State → FallbackWriter
  new_fallback_writer w stderr = record { first = w; second = stderr; drops = 0 }

  unfoldable pub drop_one : FallbackWriter → FallbackWriter
  drop_one w = record w { drops = (w.drops + 1) % 2 ^ 64 }

  -- Write after the primary has failed with `pn` bytes written.
  unfoldable pub write_rest : Bytes → ℕ → FallbackWriter → ℤ × FallbackWriter
  unfolding drop_one
  write_rest p pn w =
      let (fn, failed, state) = fallback.write (drop pn p) w.second in
      let w' : FallbackWriter = record w { second = state } in
      elim failed [
        | true ↦ (pos (length p), drop_one w')
        | false ↦
            if equals fn (length (drop pn p))
            then (pos (pn + length (drop pn p)), w')
            else (pos (length p), drop_one w')
      ]

  -- Write; the error that it returns is always nil, so the result is the count.
  unfoldable pub write : Bytes → FallbackWriter → ℤ × FallbackWriter
  unfolding write_rest
  write p w =
      let (pn, failed, state) = primary.write p w.first in
      let w' : FallbackWriter = record w { first = state } in
      elim failed [ false ↦ (pn, w') | true ↦ write_rest p (clamp pn (length p)) w' ]

  unfoldable pub drop_count : FallbackWriter → ℕ
  drop_count w = w.drops

-- ===== src/Logger/Fallback/Delivery.antt =====
-- What FallbackWriter.Write delivers, for writers that keep the contract of io.Writer.
use id_core.Prelude.{
  ℕ, ◌+◌, ◌-◌, ◌^◌, ◌%◌, ◌≤◌, true, false, ◌≡◌, refl, ◌⊎◌, inl, inr, ap, sym, append-nil, ◌++◌,
  arith, length, take, drop, length-drop, Bool-cases, ==_refl,
}
use id_core.Prelude.Int.{pos}
use id_core.Go.Bytes.{Bytes}
use id_core.Logger.Fallback.{Sink, FallbackWriter, write, write_rest, clamp}

-- The contract of io.Writer: n bytes of p, from its start, are written; 0 ≤ n ≤ len(p); and a
-- count below len(p) comes with an error. `written` is what has reached the device.
pub record IsWriter (s : Sink) (written : s.State → Bytes) : Type 0 where
  pub keeps :
      (p : Bytes) (state : s.State)
      → (n : ℕ) × ((s.write p state).0 ≡ pos n)
        × (n ≤ length p)
        × (written (s.write p state).2 ≡ written state ++ take n p)
        × ((s.write p state).1 ≡ false → n ≡ length p)

clamp_le : (n : ℕ) (p : Bytes) → n ≤ length p → clamp (pos n) (length p) ≡ n
clamp_le n p h = ground arith

module _ (primary fallback : Sink) (seen : primary.State → Bytes) (saved : fallback.State → Bytes)
    (first_ok : IsWriter primary seen) (second_ok : IsWriter fallback saved) where
  -- From w to w' the first k bytes of p went to the primary and the next m to the fallback.
  pub record Delivered (p : Bytes) (k m : ℕ) (w w' : FallbackWriter primary fallback) : Type 0 where
    pub to_primary : seen w'.first ≡ seen w.first ++ take k p
    pub to_fallback : saved w'.second ≡ saved w.second ++ take m (drop k p)

  -- Either the counter stands still and all of p was delivered, each byte once, or the counter goes
  -- up by one (modulo 2^64) and both writers have failed.
  pub record Outcome (p : Bytes) (w w' : FallbackWriter primary fallback) : Type 0 where
    pub k : ℕ
    pub m : ℕ
    pub delivered : Delivered p k m w w'
    pub within : k + m ≤ length p
    pub verdict :
        ((w'.drops ≡ w.drops) × (k + m ≡ length p))
        ⊎ ((w'.drops ≡ (w.drops + 1) % 2 ^ 64)
            × ((primary.write p w.first).1 ≡ true)
            × ((fallback.write (drop k p) w.second).1 ≡ true))

  -- The second half: k bytes are out, the rest goes to the fallback.
  record Rest (p : Bytes) (k : ℕ) (w w' : FallbackWriter primary fallback) : Type 0 where
    m : ℕ
    first : w'.first ≡ w.first
    to_fallback : saved w'.second ≡ saved w.second ++ take m (drop k p)
    within : m ≤ length p - k
    verdict :
        ((w'.drops ≡ w.drops) × (m ≡ length p - k))
        ⊎ ((w'.drops ≡ (w.drops + 1) % 2 ^ 64) × ((fallback.write (drop k p) w.second).1 ≡ true))

  write_rest-Rest :
      (p : Bytes) (k : ℕ) (w : FallbackWriter primary fallback)
      → k ≤ length p
      → Rest p k w (write_rest primary fallback p k w).1
        × ((write_rest primary fallback p k w).0 ≡ pos (length p))
  unfolding write_rest
  write_rest-Rest p k w h =
      let (n, same, le, out, full) = second_ok.keeps (drop k p) w.second in
      let size = length-drop k p in
      elim (Bool-cases (fallback.write (drop k p) w.second).1) [
        | inl failed ↦
            rw (failed, write_rest)
              (
                record {
                  m = n;
                  first = refl;
                  to_fallback = out;
                  within = omega arith;
                  verdict = inr (refl, failed);
                },
                refl,
              )
        | inr fine ↦
            let whole = full fine in
            rw (fine, same, write_rest)
              (rw (whole, ==_refl)
                (
                  record {
                    m = n;
                    first = refl;
                    to_fallback = out;
                    within = omega arith;
                    verdict = inl (refl, omega arith);
                  },
                  ap pos (omega arith),
                ))
      ]

  -- Write never reports less than len(p), and its outcome is one of the two of `Outcome`.
  pub write-Outcome :
      (p : Bytes) (w : FallbackWriter primary fallback)
      → Outcome p w (write primary fallback p w).1
        × ((write primary fallback p w).0 ≡ pos (length p))
  unfolding write
  write-Outcome p w =
      let (n, same, le, out, full) = first_ok.keeps p w.first in
      elim (Bool-cases (primary.write p w.first).1) [
        | inl failed ↦
            rw (failed, same, clamp_le n p le, write)
              (let w' : FallbackWriter primary fallback = record w {
                first = (primary.write p w.first).2;
              } in
                let (r, count) = write_rest-Rest p n w' le in
                (
                  record {
                    k = n;
                    m = r.m;
                    delivered = record { to_primary = rw r.first out; to_fallback = r.to_fallback };
                    within = omega (arith, r.within);
                    verdict = elim r.verdict [
                      | inl done ↦ inl (done.0, omega (arith, done.1))
                      | inr lost ↦ inr (lost.0, failed, lost.1)
                    ];
                  },
                  count,
                ))
        | inr fine ↦
            rw (fine, same, write)
              (
                record {
                  k = n;
                  m = 0;
                  delivered = record { to_primary = out; to_fallback = sym (append-nil _) };
                  within = omega arith;
                  verdict = inl (refl, omega (arith, full fine));
                },
                ap pos (full fine),
              )
      ]

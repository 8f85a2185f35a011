-- ===== src/Logger/Lines/Accounts.antt =====
-- Where the lines of a log go.
use id_core.Prelude.{
  ℕ, suc, ◌+◌, ◌^◌, ◌%◌, ◌≤◌, ◌<◌, ◌≡◌, refl, sym, ap, ◌∙◌, subst, true, List, [], ◌∷◌, ◌++◌,
  append_assoc, append-nil, map, length, take, drop, take-all, length-drop, inl, inr, arith,
}
use id_core.Go.Bytes.{Bytes}
use id_core.Logger.Output.{Level, debug, info, warn, error, enabled, log_record}
use id_core.Logger.Fallback.{Sink, FallbackWriter, write}
use id_core.Logger.Fallback.Delivery.{IsWriter, Outcome, write-Outcome}
use id_core.Logger.Lines.{Call, Logger, write_log}

-- How the bytes of some lines, in their order, are shared out: to the primary, to the fallback, and
-- how many lines are not whole.
pub data Shares : List Bytes → Bytes → Bytes → ℕ → Type 0 where
  nothing : Shares [] [] [] 0
  whole :
      {lines : List Bytes} {p f : Bytes} {lost : ℕ} (line : Bytes) (k : ℕ)
      → k ≤ length line
      → Shares lines p f lost
      → Shares (line ∷ lines) (take k line ++ p) (drop k line ++ f) lost
  broken :
      {lines : List Bytes} {p f : Bytes} {lost : ℕ} (line : Bytes) (k m : ℕ)
      → k + m ≤ length line
      → Shares lines p f lost
      → Shares (line ∷ lines) (take k line ++ p) (take m (drop k line) ++ f) (suc lost)

module _ (Time : Type 0) (primary fallback : Sink) where
  abbrev pub write_logs :
      List (Call Time) → Logger Time primary fallback → Logger Time primary fallback
  write_logs [] l = l
  write_logs (c ∷ calls) l = write_logs calls (write_log Time primary fallback c l)

  -- The text of the record that `log` makes of a call.
  abbrev pub line_of : Logger Time primary fallback → Call Time → Bytes
  line_of l c = l.handler c.now (log_record c.ctx c.level c.message c.cause c.args)

pub continued : (z q p : Bytes) {x y : Bytes} → x ≡ y ++ p → y ≡ z ++ q → x ≡ z ++ (q ++ p)
continued z q p h k = h ∙ ap (λ r. r ++ p) k ∙ append_assoc z q p

pub enabled_always : (level : Level) → enabled level ≡ true
enabled_always debug = refl
enabled_always info = refl
enabled_always warn = refl
enabled_always error = refl

-- Every level is enabled.
pub write_log-write :
    (Time : Type 0) (primary fallback : Sink) (c : Call Time) (l : Logger Time primary fallback)
    → write_log Time primary fallback c l ≡ record l {
      writer = (write primary fallback (line_of Time primary fallback l c) l.writer).1;
    }
unfolding write_log
write_log-write Time primary fallback c l = rw (enabled_always c.level) refl

module _ (primary fallback : Sink) (seen : primary.State → Bytes)
    (saved : fallback.State → Bytes) where
  -- The bytes that have come out of the writers between two states are those of the lines.
  pub record Accounted (lines : List Bytes) (w late : FallbackWriter primary fallback)
      : Type 0 where
    pub to_primary : Bytes
    pub to_fallback : Bytes
    pub lost : ℕ
    pub shares : Shares lines to_primary to_fallback lost
    pub primary_has : seen late.first ≡ seen w.first ++ to_primary
    pub fallback_has : saved late.second ≡ saved w.second ++ to_fallback
    pub drops_are : late.drops ≡ (w.drops + lost) % 2 ^ 64

  module _ (first_ok : IsWriter primary seen) (second_ok : IsWriter fallback saved) where
    line-Accounted :
        (line : Bytes) (lines : List Bytes) (w next late : FallbackWriter primary fallback)
        → Outcome primary fallback seen saved first_ok second_ok line w next
        → Accounted lines next late
        → Accounted (line ∷ lines) w late
    line-Accounted line lines w next late o a = elim o.verdict [
      | inl (same, all_out) ↦ record {
        to_primary = take o.k line ++ a.to_primary;
        to_fallback = drop o.k line ++ a.to_fallback;
        lost = a.lost;
        shares = whole line o.k (omega (arith, all_out)) a.shares;
        primary_has = continued _ _ _ a.primary_has o.delivered.to_primary;
        fallback_has = continued _ _ _ a.fallback_has (
            o.delivered.to_fallback
            ∙ ap (λ r. saved w.second ++ r)
                (take-all o.m (drop o.k line) (omega (arith, all_out, length-drop o.k line))));
        drops_are = omega (arith, a.drops_are, same);
      }
      | inr (more, failed, failed_too) ↦ record {
        to_primary = take o.k line ++ a.to_primary;
        to_fallback = take o.m (drop o.k line) ++ a.to_fallback;
        lost = suc a.lost;
        shares = broken line o.k o.m o.within a.shares;
        primary_has = continued _ _ _ a.primary_has o.delivered.to_primary;
        fallback_has = continued _ _ _ a.fallback_has o.delivered.to_fallback;
        drops_are = omega (arith, a.drops_are, more);
      }
    ]

    next_drops :
        (line : Bytes) (w next : FallbackWriter primary fallback)
        → Outcome primary fallback seen saved first_ok second_ok line w next
        → w.drops < 2 ^ 64
        → next.drops < 2 ^ 64
    next_drops line w next o h = elim o.verdict [
      | inl (same, all_out) ↦ omega (arith, same, h)
      | inr (more, failed, failed_too) ↦ omega (arith, more)
    ]

    -- Over writers that keep the contract of io.Writer, the lines of a sequence of calls come out once
    -- and in their order: the first bytes of each line on the primary, and all the others on the
    -- fallback, or the line is one of the lost ones, by whose number (modulo 2^64) the counter has
    -- gone up. Each call has one line, whatever its level.
    pub write_logs-Accounted :
        (Time : Type 0) (calls : List (Call Time)) (l : Logger Time primary fallback)
        → l.writer.drops < 2 ^ 64
        → Accounted
            (map (line_of Time primary fallback l) calls)
            l.writer
            (write_logs Time primary fallback calls l).writer
    write_logs-Accounted Time [] l small = record {
      to_primary = [];
      to_fallback = [];
      lost = 0;
      shares = nothing;
      primary_has = sym (append-nil _);
      fallback_has = sym (append-nil _);
      drops_are = omega (arith, small);
    }
    write_logs-Accounted Time (c ∷ calls) l small =
        let line = line_of Time primary fallback l c in
        let (o, count) =
          write-Outcome primary fallback seen saved first_ok second_ok line l.writer in
        let next : Logger Time primary fallback = record l {
          writer = (write primary fallback line l.writer).1;
        } in
        subst
          (λ u.
            Accounted (line ∷ map (line_of Time primary fallback l) calls) l.writer
              (write_logs Time primary fallback calls u).writer)
          (sym (write_log-write Time primary fallback c l))
          (line-Accounted line _ l.writer next.writer _ o
            (write_logs-Accounted Time calls next (next_drops line l.writer next.writer o small)))

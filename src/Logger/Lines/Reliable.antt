-- ===== src/Logger/Lines/Reliable.antt =====
-- The log on a writer that never fails.
use id_core.Prelude.{
  ◌≡◌, refl, sym, ap, ◌∙◌, subst, false, List, [], ◌∷◌, ◌++◌, append_assoc, append-nil, take-all,
}
use id_core.Go.Bytes.{Bytes}
use id_core.Logger.Output.{LogRecord, log, log_record}
use id_core.Logger.Fallback.{Sink, FallbackWriter, write}
use id_core.Logger.Fallback.Delivery.{IsWriter}
use id_core.Logger.Lines.{Call, Logger}
use id_core.Logger.Lines.Accounts.{write_logs, line_of, enabled_always, write_log-write, continued}

-- The log as the list of its records, with the time of each.
abbrev pub record_of : {Time : Type 0} → Call Time → List LogRecord → List LogRecord
record_of c = log c.ctx c.level c.message c.cause c.args

abbrev pub records : {Time : Type 0} → List (Call Time) → List LogRecord → List LogRecord
records [] logs = logs
records (c ∷ calls) logs = records calls (record_of c logs)

-- The texts of records, one after the other, each with the time of its call.
abbrev pub text_of :
    {Time : Type 0} → (Time → LogRecord → Bytes) → List (Call Time) → List LogRecord → Bytes
text_of handler (c ∷ calls) (r ∷ rs) = handler c.now r ++ text_of handler calls rs
text_of handler _ _ = []

record_of-append :
    {Time : Type 0} (c : Call Time) (logs : List LogRecord)
    → record_of c logs ≡ logs ++ log_record c.ctx c.level c.message c.cause c.args ∷ []
unfolding log
record_of-append c logs = rw (enabled_always c.level) refl

records-append :
    {Time : Type 0} (calls : List (Call Time)) (logs : List LogRecord)
    → records calls logs ≡ logs ++ records calls []
records-append [] logs = sym (append-nil logs)
records-append (c ∷ calls) logs =
    records-append calls (record_of c logs)
    ∙ ap (λ l. l ++ records calls []) (record_of-append c logs)
    ∙ append_assoc logs _ (records calls [])
    ∙ ap (λ l. logs ++ l)
        (sym (
          records-append calls (record_of c [])
          ∙ ap (λ l. l ++ records calls []) (record_of-append c [])))

module _ (primary fallback : Sink) (seen : primary.State → Bytes) where
  -- From l to late, the text has come out on the primary, and on nothing else.
  abbrev pub Wrote :
      {Time : Type 0} → Logger Time primary fallback → Bytes → Logger Time primary fallback → Type 0
  Wrote l text late =
      (seen late.writer.first ≡ seen l.writer.first ++ text)
      × (late.writer.second ≡ l.writer.second)
      × (late.writer.drops ≡ l.writer.drops)

module _ (primary fallback : Sink) (seen : primary.State → Bytes) (first_ok : IsWriter primary seen)
    (never : (p : Bytes) (s : primary.State) → (primary.write p s).1 ≡ false) where
  write-reliable :
      (p : Bytes) (w : FallbackWriter primary fallback)
      → (write primary fallback p w).1 ≡ record w { first = (primary.write p w.first).2 }
  unfolding write
  write-reliable p w = rw (never p w.first, write) refl

  device-reliable : (p : Bytes) (s : primary.State) → seen (primary.write p s).2 ≡ seen s ++ p
  device-reliable p s =
      let (n, same, le, out, full) = first_ok.keeps p s in
      out ∙ ap (λ r. seen s ++ r) (take-all n p (sym (full (never p s))))

  -- Over a primary that keeps the contract of io.Writer and never fails, a sequence of calls writes to
  -- it the texts of the records that the calls add to the log, in their order and with the times of
  -- the calls; the fallback and the counter are as they were.
  pub write_logs-records :
      (Time : Type 0) (calls : List (Call Time)) (l : Logger Time primary fallback)
      → Wrote primary fallback seen l
          (text_of l.handler calls (records calls []))
          (write_logs Time primary fallback calls l)
  write_logs-records Time [] l = (sym (append-nil _), refl, refl)
  write_logs-records Time (c ∷ calls) l =
      let line = line_of Time primary fallback l c in
      let w : FallbackWriter primary fallback = record l.writer {
        first = (primary.write line l.writer.first).2;
      } in
      let step =
        write_log-write Time primary fallback c l
        ∙ ap (λ v. record l { writer = v }) (write-reliable line l.writer) in
      let (out, second, drops) = write_logs-records Time calls (record l { writer = w }) in
      let head =
        records-append calls (record_of c [])
        ∙ ap (λ r. r ++ records calls []) (record_of-append c []) in
      subst
        (λ r.
          Wrote primary fallback seen l (text_of l.handler (c ∷ calls) r)
            (write_logs Time primary fallback (c ∷ calls) l))
        (sym head)
        (subst
          (λ u.
            Wrote primary fallback seen l (line ++ text_of l.handler calls (records calls []))
              (write_logs Time primary fallback calls u))
          (sym step) (continued _ _ _ out (device-reliable line l.writer.first), second, drops))

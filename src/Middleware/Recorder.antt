-- ===== src/Middleware/Recorder.antt =====
-- statusRecorder of core/internal/middleware/access_log.go: a ResponseWriter around another.
use id_core.Prelude.{ℕ, Bool, true, false, Option, none, if◌then◌else◌}
use id_core.Go.Bytes.{Bytes}
use id_core.Go.Http.{Panic}
use id_core.Http.{ResponseWriter}

pub record StatusRecorder : Type 0 where
  pub status : ℕ
  pub wrote_header : Bool

abbrev pub new_recorder : StatusRecorder
new_recorder = record { status = 200; wrote_header = false }

module _ {W : Type 0} (inner : ResponseWriter W) where
  -- WriteHeader: the recorder is marked before the call goes down.
  unfoldable pub record_header : ℕ → StatusRecorder × W → Option Panic × (StatusRecorder × W)
  record_header code (r, w) =
      let (p, w') = inner.write_header code w in
      if r.wrote_header
      then (none, (r, w))
      else (p, (record { status = code; wrote_header = true }, w'))

  -- Write: an implicit 200 first, which no writer refuses.
  unfoldable pub record_write : Bytes → StatusRecorder × W → Option Bytes × (StatusRecorder × W)
  unfolding record_header
  record_write p (r, w) =
      let (_, (r', w')) = record_header 200 (r, w) in
      let (e, w'') = inner.write p w' in (e, (r', w''))

  -- Flush, Hijack and the header go through to the inner writer.
  unfoldable pub recorded : ResponseWriter (StatusRecorder × W)
  unfolding record_header record_write
  recorded = record {
    set_header = λ k v s. (s.0, inner.set_header k v s.1);
    write_header = record_header;
    write = record_write;
    flush = λ s. (s.0, inner.flush s.1);
    hijack = λ s. let (taken, w) = inner.hijack s.1 in (taken, (s.0, w));
  }

-- ===== src/Tests/LogLinesRuns.antt =====
-- core/internal/logger on two writers.
use id_core.Prelude.{
  ℕ, ◌++◌, ◌≡◌, refl, sym, ap, false, none, [], ◌∷◌, map, length, take-all, err, arith,
}
use id_core.Prelude.Int.{pos}
use id_core.Go.Bytes.{Bytes, bytes, bytes_eq, is_empty}
use id_core.Logger.Output.{format_json, format_text, info, error, log_record, format_from_env}
use id_core.Logger.Fallback.{Sink, write}
use id_core.Logger.Fallback.Delivery.{IsWriter}
use id_core.Logger.Lines.{
  time, str, Slog, Call, Logger, utc_time_replace_attr, new_logger, default_logger, write_log,
}
use id_core.Logger.Lines.Accounts.{Accounted, write_logs, line_of, write_logs-Accounted}
use id_core.Logger.Lines.Reliable.{Wrote, records, text_of, write_logs-records}
use id_core.Tests.LoggerRuns.{two_bytes, taken, two_bytes-IsWriter}

-- A time is a number, and the text of a record is its message.
abbrev lines : Slog ℕ
lines = record {
  utc_rfc3339_nano = λ t. t ∷ [];
  encode = λ format hook now r. r.message ++ 10 ∷ [];
}

-- Everything that is written stays.
abbrev paper : Sink
paper = record { State = Bytes; write = λ p s. (pos (length p), false, s ++ p) }

abbrev on_paper : Bytes → Bytes
on_paper s = s

paper-IsWriter : IsWriter paper on_paper
paper-IsWriter = record {
  keeps = λ p s.
      (length p, refl, omega arith, ap (λ r. s ++ r) (sym (take-all (length p) p refl)), λ h. refl);
}

abbrev started : Call ℕ
started = record {
  now = 5;
  ctx = none;
  level = info;
  message = bytes "up";
  cause = none;
  args = [];
}

abbrev stopped : Call ℕ
stopped = record started { now = 6; level = error; message = bytes "down" }

abbrev pages : Logger ℕ paper two_bytes
pages = new_logger ℕ paper two_bytes lines format_json [] []

abbrev narrow : Logger ℕ two_bytes two_bytes
narrow = new_logger ℕ two_bytes two_bytes lines format_text [] []

hook_on_time :
    utc_time_replace_attr lines (record { key = bytes "time"; value = time 7 })
    ≡ record { key = bytes "time"; value = str (7 ∷ []) }
unfolding utc_time_replace_attr bytes_eq
hook_on_time = refl

no_such_format : default_logger ℕ paper two_bytes lines (bytes "xml") [] [] ≡ err (bytes "xml")
unfolding default_logger format_from_env bytes_eq is_empty
no_such_format = refl

two_lines :
    (write_logs ℕ paper two_bytes (started ∷ stopped ∷ []) pages).writer.first ≡ bytes "up\ndown\n"
unfolding write_log write new_logger log_record
two_lines = refl

-- "up" and "down" go out by two bytes on each writer: of "down" with its newline one byte is lost.
one_lost :
    (write_logs ℕ two_bytes two_bytes (started ∷ stopped ∷ []) narrow).writer
    ≡ record { first = bytes "updo"; second = bytes "\nwn"; drops = 1 }
unfolding write_log write new_logger log_record
one_lost = refl

write_logs-Accounted_example :
    Accounted two_bytes two_bytes taken taken
      (map (line_of ℕ two_bytes two_bytes narrow) (started ∷ stopped ∷ []))
      narrow.writer
      (write_logs ℕ two_bytes two_bytes (started ∷ stopped ∷ []) narrow).writer
unfolding new_logger
write_logs-Accounted_example =
    write_logs-Accounted two_bytes two_bytes taken taken two_bytes-IsWriter two_bytes-IsWriter ℕ
      (started ∷ stopped ∷ []) narrow (omega arith)

write_logs-records_example :
    Wrote paper two_bytes on_paper pages
      (text_of pages.handler (started ∷ stopped ∷ []) (records (started ∷ stopped ∷ []) []))
      (write_logs ℕ paper two_bytes (started ∷ stopped ∷ []) pages)
write_logs-records_example =
    write_logs-records paper two_bytes on_paper paper-IsWriter (λ p s. refl) ℕ
      (started ∷ stopped ∷ []) pages

-- ===== src/DbMigrate.antt =====
-- core/internal/dbmigrate/migrate.go. golang-migrate is the record Migrator, over a state of its own
-- (the database and the connections).
pub mod Gate
pub mod Runs
use id_core.Prelude.{ℕ, Bool, true, false, Option, none, some, List, [], ◌∷◌, if◌then◌else◌}
use id_core.Go.Bytes.{Bytes, bytes, is_empty}
use id_core.Go.Context.{Context}
use id_core.Logger.Output.{error, warn, text, LogRecord, log}

-- What Up and Steps return; `no_change` is migrate.ErrNoChange.
pub data Outcome : Type 0 where
  applied no_change : Outcome
  failed : Bytes → Outcome

-- What Version returns; `nil_version` is migrate.ErrNilVersion.
pub data Version : Type 0 where
  at_version : ℕ → Bool → Version
  nil_version : Version
  unknown : Bytes → Version

-- migrate.New(source, dsn), Up, Steps(-1), Version, and Close with its two errors.
pub record Migrator : Type 1 where
  pub State : Type 0
  pub open_migrator : Bytes → Bytes → State → Option Bytes × State
  pub up : State → Outcome × State
  pub step_down : State → Outcome × State
  pub version : State → Version × State
  pub close : State → Option Bytes × Option Bytes × State

pub data MigrateError : Type 0 where
  nil_logger empty_dsn empty_source dirty : MigrateError
  not_opened up_failed down_failed version_failed : Bytes → MigrateError

-- The state of the library, and the log.
pub record Job (S : Type 0) : Type 0 where
  pub state : S
  pub logs : List LogRecord

-- `nil_log` says that the logger is nil.
unfoldable pub validate_args : Bytes → Bytes → Bool → Option MigrateError
unfolding is_empty
validate_args dsn source nil_log =
    if nil_log
    then some nil_logger
    else if is_empty dsn
    then some empty_dsn
    else if is_empty source
    then some empty_source
    else none

abbrev warn_close : Context → Bytes → Option Bytes → List LogRecord → List LogRecord
warn_close ctx message none logs = logs
warn_close ctx message (some e) logs =
    log (some ctx) warn message none ((bytes "err", text e) ∷ []) logs

module _ (m : Migrator) (ctx : Context) where
  -- The deferred closeMigrator.
  unfoldable pub close_migrator : Job m.State → Job m.State
  close_migrator t =
      let (source_error, database_error, s) = m.close t.state in
      record {
        state = s;
        logs =
            warn_close ctx (bytes "dbmigrate: database の close でエラー") database_error
              (warn_close ctx (bytes "dbmigrate: source の close でエラー") source_error t.logs);
      }

  -- What the three functions share: the arguments, newMigrator, the work, and the deferred close.
  unfoldable pub with_migrator :
      (Job m.State → Option MigrateError × Job m.State)
      → Bytes
      → Bytes
      → Bool
      → Job m.State
      → Option MigrateError × Job m.State
  with_migrator work dsn source nil_log t =
      let (refused, s) = m.open_migrator source dsn t.state in
      let opened : Job m.State = record t { state = s } in
      let (result, after) = work opened in
      elim (validate_args dsn source nil_log) [
        | some e ↦ (some e, t)
        | none ↦ elim refused [
          | some e ↦ (some (not_opened e), opened)
          | none ↦ (result, close_migrator after)
        ]
      ]

  abbrev pub after_run :
      Bytes → (Bytes → MigrateError) → Outcome → Job m.State → Option MigrateError × Job m.State
  after_run message wrapped applied t = (none, t)
  after_run message wrapped no_change t = (none, t)
  after_run message wrapped (failed e) t =
      (some (wrapped e), record t { logs = log (some ctx) error message (some e) [] t.logs })

  unfoldable pub run_up : Bytes → Bytes → Bool → Job m.State → Option MigrateError × Job m.State
  run_up = with_migrator λ t.
      let (outcome, s) = m.up t.state in
      after_run (bytes "migrate up に失敗しました") up_failed outcome (record t { state = s })

  unfoldable pub run_down : Bytes → Bytes → Bool → Job m.State → Option MigrateError × Job m.State
  run_down = with_migrator λ t.
      let (outcome, s) = m.step_down t.state in
      after_run (bytes "migrate down に失敗しました") down_failed outcome (record t { state = s })

  abbrev pub after_version : Version → Job m.State → Option MigrateError × Job m.State
  after_version (at_version n true) t = (some dirty, t)
  after_version (at_version n false) t = (none, t)
  after_version nil_version t = (none, t)
  after_version (unknown e) t = (
    some (version_failed e),
    record t {
      logs =
          log (some ctx) error (bytes "schema_migrations の version 取得に失敗しました") (some e) [] t.logs;
    },
  )

  unfoldable pub assert_clean :
      Bytes → Bytes → Bool → Job m.State → Option MigrateError × Job m.State
  assert_clean =
      with_migrator λ t. let (v, s) = m.version t.state in after_version v (record t { state = s })

-- ===== src/Tests/DbMigrateRuns.antt =====
-- The start gate on a concrete database.
use id_core.Prelude.{ℕ, suc, ◌-◌, true, false, none, [], ◌≡◌, ◌↔◌, refl, arith}
use id_core.Go.Bytes.{bytes, is_empty}
use id_core.Go.Context.{background}
use id_core.DbMigrate.{
  Migrator, Job, Version, applied, at_version, nil_version, validate_args, with_migrator, run_up,
  run_down, assert_clean,
}
use id_core.DbMigrate.Gate.{IsClean, assert_clean_iff}
use id_core.DbMigrate.Runs.{CountsMigrators, KeepsSchema, runs_balanced, run_up-assert_clean}

-- The state counts the open connections; the schema is at version 3 and dirty.
abbrev dirty_schema : Migrator
dirty_schema = record {
  State = ℕ;
  open_migrator = λ source dsn s. (none, 1);
  up = λ s. (applied, s);
  step_down = λ s. (applied, s);
  version = λ s. (at_version 3 true, s);
  close = λ s. (none, none, 0);
}

abbrev start : Job ℕ
start = record { state = 0; logs = [] }

assert_clean_iff_example :
    (((assert_clean dirty_schema background
          (bytes "postgres://db")
          (bytes "file:///m")
          false
          start).0
        ≡ none)
      ↔ IsClean (at_version 3 true))
    × ((assert_clean dirty_schema background
          (bytes "postgres://db")
          (bytes "file:///m")
          false
          start).1.state
        ≡ 0)
assert_clean_iff_example =
    assert_clean_iff dirty_schema background (bytes "postgres://db") (bytes "file:///m") start
      (λ e. cc) (λ e. cc) refl

-- The version of a database, and the number of the open migrators. Up goes to version 5.
record Base : Type 0 where
  version : Version
  migrators : ℕ

abbrev five : Migrator
five = record {
  State = Base;
  open_migrator = λ source dsn s. (none, record s { migrators = suc s.migrators });
  up = λ s. (applied, record s { version = at_version 5 false });
  step_down = λ s. (applied, s);
  version = λ s. (s.version, s);
  close = λ s. (none, none, record s { migrators = s.migrators - 1 });
}

five-CountsMigrators : CountsMigrators five (λ s. s.migrators)
five-CountsMigrators = record {
  opened = λ source dsn s h. refl;
  not_opened = λ source dsn e s h. cc;
  upped = λ s. refl;
  stepped = λ s. refl;
  read = λ s. refl;
  closed = λ s n h. omega (arith, h);
}

five-KeepsSchema : KeepsSchema five (λ s. s.version)
five-KeepsSchema = record {
  opened = λ source dsn s. refl;
  closed = λ s. refl;
  read = λ s. refl;
  upped = λ s h. refl;
}

abbrev empty : Job Base
empty = record { state = record { version = nil_version; migrators = 1 }; logs = [] }

migrated : (run_up five background (bytes "postgres://db") (bytes "file:///m") false empty).0 ≡ none
unfolding run_up with_migrator validate_args is_empty
migrated = refl

runs_balanced_example :
    ((run_up five background
        (bytes "postgres://db")
        (bytes "file:///m")
        false
        empty).1.state.migrators
      ≡ 1)
    × ((run_down five background
          (bytes "postgres://db")
          (bytes "file:///m")
          false
          empty).1.state.migrators
        ≡ 1)
    × ((assert_clean five background
          (bytes "postgres://db")
          (bytes "file:///m")
          false
          empty).1.state.migrators
        ≡ 1)
runs_balanced_example =
    runs_balanced five background (λ s. s.migrators) five-CountsMigrators (bytes "postgres://db")
      (bytes "file:///m") false empty

run_up-assert_clean_example :
    (assert_clean five background
      (bytes "postgres://db")
      (bytes "file:///m")
      false
      (run_up five background (bytes "postgres://db") (bytes "file:///m") false empty).1).0
    ≡ none
run_up-assert_clean_example =
    run_up-assert_clean five background (λ s. s.version) five-KeepsSchema (bytes "postgres://db")
      (bytes "file:///m") false empty migrated refl

-- ===== src/Tests/DbTestRuns.antt =====
-- core/internal/testutil/dbtest over a small driver: the number of the open pools, and whether a
-- transaction is open.
use id_core.Prelude.{
  ℕ, suc, ◌-◌, ◌≡◌, refl, sym, ap, Bool, true, false, Option, none, some, [], inr, Result, ok, err,
  if◌then◌else◌, arith,
}
use id_core.Go.Bytes.{Bytes, bytes, bytes_eq, is_empty}
use id_core.Go.Context.{background}
use id_core.Config.{Environ}
use id_core.DbTest.{
  Driver, tx_closed, Stop, fatal, skip, TestRun, database_url, db_required,
  default_test_database_url, new_pool, run_test,
}
use id_core.DbTest.Prepares.{CountsOpen, Prepared, new_pool-Prepared}
use id_core.DbTest.Ends.{UsesTx, run_test_balanced}

record Base : Type 0 where
  pools : ℕ
  busy : Bool

abbrev count : Bool → ℕ
count false = 0
count true = 1

abbrev begin : Base → Result Bytes (Unit {0}) × Base
begin s = if s.busy then (err (bytes "busy"), s) else (ok tt, record s { busy = true })

abbrev driver : Option Bytes → Driver Base
driver answer = record {
  Pool = Unit;
  Tx = Unit;
  new = λ ctx dsn s. (ok tt, record s { pools = suc s.pools });
  ping = λ ctx pool s. (answer, s);
  close = λ pool s. record s { pools = s.pools - 1 };
  begin = λ ctx pool s. begin s;
  rollback = λ ctx tx s. (if s.busy then none else some tx_closed, record s { busy = false });
}

begin-BeginsTx :
    (b : Bool) (n : ℕ) (tx : Unit {0})
    → (begin (record { pools = n; busy = b })).0 ≡ ok tx
    → ((begin (record { pools = n; busy = b })).1.pools ≡ n)
      × (count (begin (record { pools = n; busy = b })).1.busy ≡ suc (count b))
      × ((begin (record { pools = n; busy = b })).1.busy ≡ true)
begin-BeginsTx false n tx h = (refl, refl, refl)
begin-BeginsTx true n tx h = cc

begin-refused :
    (b : Bool) (n : ℕ) (e : Bytes)
    → (begin (record { pools = n; busy = b })).0 ≡ err e
    → ((begin (record { pools = n; busy = b })).1.pools ≡ n)
      × (count (begin (record { pools = n; busy = b })).1.busy ≡ count b)
begin-refused true n e h = (refl, refl)
begin-refused false n e h = cc

driver-CountsOpen :
    (answer : Option Bytes)
    → CountsOpen (driver answer) (λ s. s.pools) (λ s. count s.busy) (λ tx s. s.busy)
driver-CountsOpen answer = record {
  made = λ ctx dsn s pool h. (refl, refl);
  refused = λ ctx dsn s e h. cc;
  pinged = λ ctx pool s. (refl, refl);
  closed = λ pool s n idle h. (omega (arith, h), idle);
  begun = λ ctx pool s tx h. begin-BeginsTx s.busy s.pools tx h;
  not_begun = λ ctx pool s e h. begin-refused s.busy s.pools e h;
  rolled_back = λ ctx tx s h. (refl, sym (ap count h));
  was_closed = λ ctx tx s h. (refl, sym (ap count h));
}

-- A body that commits.
abbrev commits : Unit {0} → TestRun Base → Option Stop × TestRun Base
commits tx t = (none, record t { state = record t.state { busy = false } })

commits-UsesTx : UsesTx (driver none) (λ s. s.pools) (λ s. count s.busy) (λ tx s. s.busy) commits
commits-UsesTx tx t h = (refl, refl, inr (refl, sym (ap count h)))

abbrev fresh : TestRun Base
fresh = record {
  state = record { pools = 2; busy = false };
  is_failed = false;
  is_skipped = false;
  messages = [];
  cleanups = [];
}

unfoldable on_ci : Environ
unfolding bytes_eq
on_ci name = if bytes_eq (bytes name) (bytes "TEST_DB_REQUIRED") then some (bytes "1") else none

abbrev no_answer : Driver Base
no_answer = driver (some (bytes "no answer"))

fails_on_ci : (new_pool no_answer background on_ci fresh).0 ≡ err fatal
unfolding new_pool on_ci db_required bytes_eq
fails_on_ci = refl

skipped_elsewhere : (new_pool no_answer background (λ name. none) fresh).0 ≡ err skip
unfolding new_pool db_required bytes_eq
skipped_elsewhere = refl

fallback_url : database_url on_ci ≡ default_test_database_url
unfolding database_url on_ci bytes_eq is_empty
fallback_url = refl

new_pool-Prepared_example :
    Prepared no_answer
      (λ s. s.pools)
      (λ s. count s.busy)
      background
      (database_url on_ci)
      (db_required on_ci)
      fresh
      (new_pool no_answer background on_ci fresh)
new_pool-Prepared_example =
    new_pool-Prepared no_answer (λ s. s.pools) (λ s. count s.busy) (λ tx s. s.busy)
      (driver-CountsOpen (some (bytes "no answer"))) background on_ci fresh refl

run_test_balanced_example :
    ((run_test (driver none) commits on_ci fresh).state.pools ≡ 2)
    × (count (run_test (driver none) commits on_ci fresh).state.busy ≡ 0)
run_test_balanced_example =
    run_test_balanced (driver none) (λ s. s.pools) (λ s. count s.busy) (λ tx s. s.busy)
      (driver-CountsOpen none) commits commits-UsesTx on_ci fresh refl refl

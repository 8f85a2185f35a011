-- ===== src/DbTest/Prepares.antt =====
-- What NewPool gives, and what it leaves of the database and of the test.
use id_core.Prelude.{
  ℕ, suc, ◌≡◌, refl, sym, ◌∙◌, Bool, true, false, Option, none, some, [], ◌∷◌, ◌++◌, ◌⊎◌, inl, inr,
  if◌then◌else◌, Result, ok, err,
}
use id_core.Go.Bytes.{Bytes, bytes}
use id_core.Go.Context.{Context}
use id_core.Config.{Environ}
use id_core.DbTest.{
  Driver, Stop, fatal, skip, TestRun, database_url, db_required, give_up, after_ping, after_new,
  new_pool,
}

-- The contract of pgx on the numbers of open pools and of open transactions. Close waits for the
-- connections of open transactions, so it is supposed to end, and to close the pool, where there
-- are none.
pub record CountsOpen {S : Type 0} (d : Driver S) (pools txs : S → ℕ) (is_open : d.Tx → S → Bool)
    : Type 0 where
  pub made :
      (ctx : Context) (dsn : Bytes) (s : S) (pool : d.Pool)
      → (d.new ctx dsn s).0 ≡ ok pool
      → (pools (d.new ctx dsn s).1 ≡ suc (pools s)) × (txs (d.new ctx dsn s).1 ≡ txs s)
  pub refused :
      (ctx : Context) (dsn : Bytes) (s : S) (e : Bytes)
      → (d.new ctx dsn s).0 ≡ err e
      → (pools (d.new ctx dsn s).1 ≡ pools s) × (txs (d.new ctx dsn s).1 ≡ txs s)
  pub pinged :
      (ctx : Context) (pool : d.Pool) (s : S)
      → (pools (d.ping ctx pool s).1 ≡ pools s) × (txs (d.ping ctx pool s).1 ≡ txs s)
  pub closed :
      (pool : d.Pool) (s : S) (n : ℕ)
      → txs s ≡ 0
      → pools s ≡ suc n
      → (pools (d.close pool s) ≡ n) × (txs (d.close pool s) ≡ 0)
  pub begun :
      (ctx : Context) (pool : d.Pool) (s : S) (tx : d.Tx)
      → (d.begin ctx pool s).0 ≡ ok tx
      → (pools (d.begin ctx pool s).1 ≡ pools s)
        × (txs (d.begin ctx pool s).1 ≡ suc (txs s))
        × (is_open tx (d.begin ctx pool s).1 ≡ true)
  pub not_begun :
      (ctx : Context) (pool : d.Pool) (s : S) (e : Bytes)
      → (d.begin ctx pool s).0 ≡ err e
      → (pools (d.begin ctx pool s).1 ≡ pools s) × (txs (d.begin ctx pool s).1 ≡ txs s)
  pub rolled_back :
      (ctx : Context) (tx : d.Tx) (s : S)
      → is_open tx s ≡ true
      → (pools (d.rollback ctx tx s).1 ≡ pools s) × (suc (txs (d.rollback ctx tx s).1) ≡ txs s)
  pub was_closed :
      (ctx : Context) (tx : d.Tx) (s : S)
      → is_open tx s ≡ false
      → (pools (d.rollback ctx tx s).1 ≡ pools s) × (txs (d.rollback ctx tx s).1 ≡ txs s)

-- The test fails where the database is required, and is skipped where it is not; the message ends
-- with the error.
abbrev pub Refuses : {S : Type 0} → Bool → Bytes → Stop → TestRun S → TestRun S → Type 0
Refuses required e stop t after =
    ((message : Bytes) × (after.messages ≡ t.messages ++ (message ++ e) ∷ []))
    × (if required
        then (stop ≡ fatal) × (after.is_failed ≡ true) × (after.is_skipped ≡ t.is_skipped)
        else (stop ≡ skip) × (after.is_skipped ≡ true) × (after.is_failed ≡ t.is_failed))

module _ {S : Type 0} (d : Driver S) (pools txs : S → ℕ) (ctx : Context) (dsn : Bytes) where
  -- New or the Ping gave the error e.
  abbrev pub Failed : S → Bytes → Type 0
  Failed s e =
      let made = d.new ctx dsn s in
      (made.0 ≡ err e)
      ⊎ ((pool : d.Pool) × (made.0 ≡ ok pool) × ((d.ping ctx pool made.1).0 ≡ some e))

  -- Either a pool that has answered, open until the cleanup that the test has now, and a test that
  -- is otherwise as it was; or the error of New or of the Ping, no pool, and a test that has stopped.
  abbrev pub Prepared : Bool → TestRun S → Result Stop d.Pool × TestRun S → Type 0
  Prepared required t (ok pool, after) =
      let made = d.new ctx dsn t.state in
      (pools after.state ≡ suc (pools t.state))
      × (txs after.state ≡ txs t.state)
      × (made.0 ≡ ok pool)
      × ((d.ping ctx pool made.1).0 ≡ none)
      × (after ≡ record t { state = after.state; cleanups = d.close pool ∷ t.cleanups })
  Prepared required t (err stop, after) =
      (pools after.state ≡ pools t.state)
      × (txs after.state ≡ txs t.state)
      × (after.cleanups ≡ t.cleanups)
      × ((e : Bytes) × Failed t.state e × Refuses required e stop t after)

  give_up-Prepared :
      (required : Bool) (t : TestRun S) (s : S) (fail_message skip_message e : Bytes)
      → pools s ≡ pools t.state
      → txs s ≡ txs t.state
      → Failed t.state e
      → Prepared required t
          (give_up d ctx required fail_message skip_message e (record t { state = s }))
  give_up-Prepared true t s fail_message skip_message e same_pools same_txs failed =
      (same_pools, same_txs, refl, (e, failed, ((fail_message, refl), (refl, refl, refl))))
  give_up-Prepared false t s fail_message skip_message e same_pools same_txs failed =
      (same_pools, same_txs, refl, (e, failed, ((skip_message, refl), (refl, refl, refl))))

  module _ (is_open : d.Tx → S → Bool) (counts : CountsOpen d pools txs is_open) where
    after_ping-Prepared :
        (required : Bool) (t : TestRun S) (pool : d.Pool) (failure : Option Bytes)
        → txs t.state ≡ 0
        → (d.new ctx dsn t.state).0 ≡ ok pool
        → (d.ping ctx pool (d.new ctx dsn t.state).1).0 ≡ failure
        → Prepared required t (
            after_ping d ctx required pool failure
              (record t { state = (d.ping ctx pool (d.new ctx dsn t.state).1).1 }))
    after_ping-Prepared required t pool none idle made e =
        let (new_pools, new_txs) = counts.made ctx dsn t.state pool made in
        let (pools_kept, txs_kept) = counts.pinged ctx pool (d.new ctx dsn t.state).1 in
        (pools_kept ∙ new_pools, txs_kept ∙ new_txs, made, e, refl)
    after_ping-Prepared required t pool (some x) idle made e =
        let (new_pools, new_txs) = counts.made ctx dsn t.state pool made in
        let (pools_kept, txs_kept) = counts.pinged ctx pool (d.new ctx dsn t.state).1 in
        let (no_pool, no_tx) =
          counts.closed pool _ (pools t.state) (txs_kept ∙ new_txs ∙ idle)
            (pools_kept ∙ new_pools) in
        give_up-Prepared required t _ (bytes "テスト DB Ping に失敗しました (TEST_DB_REQUIRED=1): ")
          (bytes "テスト DB Ping 失敗のためスキップします: ") x no_pool (no_tx ∙ sym idle) (inr (pool, made, e))

    after_new-Prepared :
        (required : Bool) (t : TestRun S) (made : Result Bytes d.Pool)
        → txs t.state ≡ 0
        → (d.new ctx dsn t.state).0 ≡ made
        → Prepared required t
            (after_new d ctx required made (record t { state = (d.new ctx dsn t.state).1 }))
    after_new-Prepared required t (ok pool) idle e =
        after_ping-Prepared required t pool _ idle e refl
    after_new-Prepared required t (err x) idle e =
        let (pools_kept, txs_kept) = counts.refused ctx dsn t.state x e in
        give_up-Prepared required t _ (bytes "テスト DB 接続に失敗しました (TEST_DB_REQUIRED=1): ")
          (bytes "テスト DB に接続できないためスキップします: ") x pools_kept txs_kept (inl e)

-- NewPool where no transaction is open, on every branch: a pool that has answered a Ping is open, and
-- the test has its Close as a cleanup; or New or the Ping gave an error, no pool is left open, and the
-- test has stopped: it has failed where TEST_DB_REQUIRED is 1, and is skipped otherwise. It supposes
-- the contract of pgx on the numbers of open pools and transactions.
pub new_pool-Prepared :
    {S : Type 0} (d : Driver S) (pools txs : S → ℕ) (is_open : d.Tx → S → Bool)
    → CountsOpen d pools txs is_open
    → (ctx : Context) (env : Environ) (t : TestRun S) → txs t.state ≡ 0
    → Prepared d pools txs ctx (database_url env) (db_required env) t (new_pool d ctx env t)
unfolding new_pool
new_pool-Prepared d pools txs is_open counts ctx env t idle =
    after_new-Prepared d pools txs ctx (database_url env) is_open counts (db_required env) t _ idle
      refl

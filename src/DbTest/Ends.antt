-- ===== src/DbTest/Ends.antt =====
-- What a test in the documented form leaves open.
use id_core.Prelude.{
  ℕ, suc, ◌≡◌, refl, ap, ◌∙◌, Bool, true, false, Option, none, some, [], ◌∷◌, ◌⊎◌, inl, inr, Result,
  ok, err, arith,
}
use id_core.Go.Bytes.{Bytes}
use id_core.Go.Context.{background}
use id_core.Config.{Environ}
use id_core.DbTest.{
  RollbackError, tx_closed, rollback_failed, Driver, Stop, TestRun, database_url, db_required,
  new_pool, after_begin, begin_tx, after_rollback, rollback_tx, finish, after_begun, after_prepared,
  run_test,
}
use id_core.DbTest.Prepares.{CountsOpen, Prepared, new_pool-Prepared}

module _ {S : Type 0} (d : Driver S) (pools txs : S → ℕ) (is_open : d.Tx → S → Bool) where
  -- What a body may do to its transaction: leave it open, or close it by Commit or Rollback.
  abbrev pub Uses : d.Tx → TestRun S → TestRun S → Type 0
  Uses tx t after =
      (pools after.state ≡ pools t.state)
      × (after.cleanups ≡ t.cleanups)
      × (((is_open tx after.state ≡ true) × (txs after.state ≡ txs t.state))
          ⊎ ((is_open tx after.state ≡ false) × (suc (txs after.state) ≡ txs t.state)))

  abbrev pub UsesTx : (d.Tx → TestRun S → Option Stop × TestRun S) → Type 0
  UsesTx body = (tx : d.Tx) (t : TestRun S) → is_open tx t.state ≡ true → Uses tx t (body tx t).1

  -- No transaction is open, and the cleanups are those of t.
  abbrev Idle : TestRun S → TestRun S → Type 0
  Idle t after =
      (pools after.state ≡ pools t.state) × (txs after.state ≡ 0) × (after.cleanups ≡ t.cleanups)

  after_rollback_keeps :
      (failure : Option RollbackError) (t : TestRun S)
      → ((after_rollback d background failure t).state ≡ t.state)
        × ((after_rollback d background failure t).cleanups ≡ t.cleanups)
  after_rollback_keeps none t = (refl, refl)
  after_rollback_keeps (some tx_closed) t = (refl, refl)
  after_rollback_keeps (some (rollback_failed e)) t = (refl, refl)

  module _ (counts : CountsOpen d pools txs is_open) where
    rollback_tx-Idle :
        (tx : d.Tx) (t after : TestRun S)
        → txs t.state ≡ 1
        → Uses tx t after
        → Idle t (rollback_tx d background (some tx) after)
    unfolding rollback_tx
    rollback_tx-Idle tx t after one (same_pools, same_cleanups, used) =
        let rolled = d.rollback background tx after.state in
        let (state, cleanups) = after_rollback_keeps rolled.0 (record after { state = rolled.1 }) in
        let counted : (pools rolled.1 ≡ pools after.state) × (txs rolled.1 ≡ 0) = elim used [
          | inl (open_still, same) ↦
              (let (p, n) = counts.rolled_back background tx after.state open_still in
                (p, omega (arith, n, same, one)))
          | inr (closed, fewer) ↦
              (let (p, n) = counts.was_closed background tx after.state closed in
                (p, omega (arith, n, fewer, one)))
        ] in
        (
          ap pools state ∙ counted.0 ∙ same_pools,
          ap txs state ∙ counted.1,
          cleanups ∙ same_cleanups,
        )

    module _ (body : d.Tx → TestRun S → Option Stop × TestRun S) (uses : UsesTx body) where
      after_begun-Idle :
          (pool : d.Pool) (t : TestRun S) (begun : Result Bytes d.Tx)
          → txs t.state ≡ 0
          → (d.begin background pool t.state).0 ≡ begun
          → (let r =
                after_begin d background begun
                  (record t { state = (d.begin background pool t.state).1 }) in
              Idle t (after_begun d body r.0 r.1))
      after_begun-Idle pool t (err x) idle e =
          let (same_pools, same_txs) = counts.not_begun background pool t.state x e in
          (same_pools, same_txs ∙ idle, refl)
      after_begun-Idle pool t (ok tx) idle e =
          let (same_pools, more, is_begun) = counts.begun background pool t.state tx e in
          let start : TestRun S = record t { state = (d.begin background pool t.state).1 } in
          let (p, n, c) =
            rollback_tx-Idle tx start (body tx start).1 (more ∙ ap suc idle)
              (uses tx start is_begun) in
          (p ∙ same_pools, n, c)

      after_prepared_balanced :
          (env : Environ) (t : TestRun S) (r : Result Stop d.Pool × TestRun S)
          → txs t.state ≡ 0
          → t.cleanups ≡ []
          → Prepared d pools txs background (database_url env) (db_required env) t r
          → (pools (finish (after_prepared d body r.0 r.1)).state ≡ pools t.state)
            × (txs (finish (after_prepared d body r.0 r.1)).state ≡ 0)
      unfolding begin_tx
      after_prepared_balanced env t (err stop, after) idle fresh
            (same_pools, same_txs, cleanups, why) =
          rw (cleanups, fresh) (same_pools, same_txs ∙ idle)
      after_prepared_balanced env t (ok pool, after) idle fresh
            (one_more, same_txs, made, answered, shape) =
          let (p, n, c) = after_begun-Idle pool after _ (same_txs ∙ idle) refl in
          let only = c ∙ ap (λ u. u.cleanups) shape ∙ ap (λ l. d.close pool ∷ l) fresh in
          rw only (counts.closed pool _ (pools t.state) n (p ∙ one_more))

-- A test in the documented form, from NewPool to its cleanups, leaves as many pools open as before and
-- no transaction, whatever fails and whether the body returns, fails, skips, commits or rolls back;
-- in particular the pool is closed after the transaction has ended, so that Close does not wait for
-- it. It supposes the contract of pgx on the numbers of open pools and transactions, a test that
-- begins without transactions and cleanups, and a body that opens no pool, no further transaction
-- that stays open, and registers no cleanup.
pub run_test_balanced :
    {S : Type 0} (d : Driver S) (pools txs : S → ℕ) (is_open : d.Tx → S → Bool)
    → CountsOpen d pools txs is_open
    → (body : d.Tx → TestRun S → Option Stop × TestRun S) → UsesTx d pools txs is_open body
    → (env : Environ) (t : TestRun S) → txs t.state ≡ 0
    → t.cleanups ≡ []
    → (pools (run_test d body env t).state ≡ pools t.state)
      × (txs (run_test d body env t).state ≡ 0)
unfolding run_test
run_test_balanced d pools txs is_open counts body uses env t idle fresh =
    after_prepared_balanced d pools txs is_open counts body uses env t (new_pool d background env t)
      idle fresh (new_pool-Prepared d pools txs is_open counts background env t idle)

-- ===== src/Core/Refines.antt =====
-- The program goes through the phases.
use id_core.Prelude.{
  ℕ, ◌≡◌, refl, sym, ap, ◌∙◌, subst, ◌↔◌, false, Option, none, some, List, [], Option-cases, inl,
  inr, Result, ok, err,
}
use id_core.Go.Bytes.{Bytes}
use id_core.Go.Context.{Context, background}
use id_core.Config.{Environ, Config}
use id_core.Logger.Context.{with_event_id}
use id_core.Logger.Output.{LogRecord}
use id_core.DbMigrate.{Job, MigrateError, assert_clean}
use id_core.DbMigrate.Gate.{
  IsClean, validate_args_iff, after_version_iff, after_version-state, close_migrator-state,
}
use id_core.DbMigrate.Runs.{refused_opening, worked}
use id_core.Db.Dsn.{build_dsn}
use id_core.Db.Open.{DbError, open_pool}
use id_core.Db.Open.Ends.{Ends, open_pool-Ends}
use id_core.Keystore.{KeySet, KeyError, Source}
use id_core.Keystore.Published.{Published, init-Published}
use id_core.Oidc.Jwks.{JwksError, JwksHandler, new_jwks}
use id_core.Server.{HttpServer, new_server, with_jwks}
use id_core.Core.{
  Machine, BootError, Listened, closed, listen_failed, exit_error, resolve_migrations_source,
  bootstrap, init_keystore, after_listen, after_new_server, after_key_logs, after_keystore,
  after_gate, after_open, after_bootstrap, run,
}
use id_core.Core.StartLogs.{emit_keystore_startup_logs}
use id_core.Core.Arguments.{build_dsn-ne-nil, resolve_migrations_source-ne-nil}
use id_core.Core.Phases.{
  key_settings, server_of, Phase, booting, connected, gated, keyed, listening, closing, stopped,
  opened, read, left, Step, boot_failed, connect_failed, connect, gate_shut, gate_failed,
  gate_passed, keys_failed, keys_ready, server_failed, listen, listen_ended, listen_broke, close,
  Reach, here, step,
}

module _ (m : Machine) (environ : Environ) (uuid : Result Bytes Bytes) where
  module _ (cfg : Config) (ctx : Context) where
    -- From a phase with an open pool, to the end with what the rest of run gives.
    abbrev Finishes : Phase m environ uuid → m.pgx.Pool → ℕ × Job m.migrator.State → Type 0
    Finishes phase pool (code, t) =
        Reach m environ uuid phase (stopped code (m.pgx.close pool t.state))

    give_up-Reach :
        (phase : Phase m environ uuid) (pool : m.pgx.Pool) (code : ℕ) (s : m.migrator.State)
        → Step m environ uuid phase (closing code pool s)
        → Reach m environ uuid phase (stopped code (m.pgx.close pool s))
    give_up-Reach phase pool code s fails = step fails (step (close code pool s) (here _))

    after_listen-Finishes :
        (pool : m.pgx.Pool) (srv : HttpServer) (s : m.migrator.State) (logs : List LogRecord)
        (r : Listened)
        → (m.listen srv s).0 ≡ r
        → Finishes
            (listening srv pool s)
            pool
            (after_listen m environ cfg ctx r (record { state = (m.listen srv s).1; logs = logs }))
    after_listen-Finishes pool srv s logs closed e =
        give_up-Reach _ pool _ _ (listen_ended srv pool s e)
    after_listen-Finishes pool srv s logs (listen_failed x) e =
        give_up-Reach _ pool _ _ (listen_broke srv pool s x e)

    after_jwks-Finishes :
        (pool : m.pgx.Pool) (ks : KeySet m.crypto) (t : Job m.migrator.State)
        (h : Result JwksError JwksHandler)
        → new_jwks m.crypto m.jwx m.base64_url (some ks) cfg.oidc.jwks_max_age ≡ h
        → Finishes
            (keyed cfg ks pool t.state)
            pool
            (after_new_server m environ cfg ctx (with_jwks m.crypto m.jwx m.base64_url cfg h) t)
    after_jwks-Finishes pool ks t (err x) e =
        give_up-Reach _ pool _ _ (server_failed cfg ks pool t.state x e)
    after_jwks-Finishes pool ks t (ok h) e =
        step (listen cfg ks h pool t.state e)
          (after_listen-Finishes pool (server_of m cfg h) t.state _ _ refl)

    -- An initialised key set has an active key, so that its log has no error.
    after_key_logs-Finishes :
        (pool : m.pgx.Pool) (ks : KeySet m.crypto) (src : Source) (t : Job m.migrator.State)
        → Published m.crypto (key_settings cfg) ks src
        → Finishes (keyed cfg ks pool t.state) pool (
            after_key_logs m environ cfg ctx ks
              (emit_keystore_startup_logs m.crypto ctx ks src cfg.env t.logs)
              t)
    unfolding emit_keystore_startup_logs new_server
    after_key_logs-Finishes pool ks src t published =
        rw (published.active ctx) (after_jwks-Finishes pool ks _ _ refl)

    after_keystore-Finishes :
        (pool : m.pgx.Pool) (r : Result KeyError (KeySet m.crypto × Source))
        (t : Job m.migrator.State)
        → init_keystore m.crypto cfg.oidc ≡ r
        → Finishes (gated cfg pool t.state) pool (after_keystore m environ cfg ctx r t)
    unfolding init_keystore
    after_keystore-Finishes pool (err x) t e =
        give_up-Reach _ pool _ _ (keys_failed cfg pool t.state x e)
    after_keystore-Finishes pool (ok (ks, src)) t e =
        let published = init-Published m.crypto _ ks src e in
        step (keys_ready cfg ks src pool t.state e published)
          (after_key_logs-Finishes pool ks src t published)

    -- The gate has opened its migrator; v is the version.
    after_work-Finishes :
        (pool : m.pgx.Pool) (s : m.migrator.State) (r : Option MigrateError)
        (after : Job m.migrator.State)
        → (opened m environ uuid cfg s).0 ≡ none
        → (r ≡ none) ↔ IsClean (read m environ uuid cfg s).0
        → after.state ≡ left m environ uuid cfg s
        → Finishes (connected cfg pool s) pool (after_gate m environ cfg ctx (r, after))
    after_work-Finishes pool s (some x) after open_now clean at =
        subst
          (λ z.
            Reach m environ uuid (connected cfg pool s) (stopped exit_error (m.pgx.close pool z)))
          (sym at)
          (give_up-Reach _ pool _ _ (gate_failed cfg pool s open_now (λ h. cc (clean.1 h))))
    after_work-Finishes pool s none after open_now clean at =
        step (gate_passed cfg pool s open_now (clean.0 refl)) (
          subst
            (λ z.
              Finishes (gated cfg pool z) pool
                (after_keystore m environ cfg ctx (init_keystore m.crypto cfg.oidc) after))
            at (after_keystore-Finishes pool _ after refl))

    assert_clean-Finishes :
        (pool : m.pgx.Pool) (t : Job m.migrator.State)
        → Finishes (connected cfg pool t.state) pool (
            after_gate m environ cfg ctx (
              assert_clean m.migrator ctx
                (build_dsn cfg.database)
                (resolve_migrations_source environ)
                false
                t))
    unfolding assert_clean
    assert_clean-Finishes pool t =
        let source = resolve_migrations_source environ in
        let dsn = build_dsn cfg.database in
        let fine =
          (validate_args_iff dsn source false).1
            (refl, build_dsn-ne-nil cfg.database, resolve_migrations_source-ne-nil environ) in
        let Ended : Option MigrateError × Job m.migrator.State → Type 0 =
          λ r. Finishes (connected cfg pool t.state) pool (after_gate m environ cfg ctx r) in
        elim (Option-cases (opened m environ uuid cfg t.state).0) [
          | inr (e, refused) ↦
              subst Ended (sym (refused_opening m.migrator ctx _ dsn source false t e fine refused))
                (give_up-Reach _ pool _ _ (gate_shut cfg pool t.state e refused))
          | inl open_now ↦
              subst Ended (sym (worked m.migrator ctx _ dsn source false t fine open_now)) (
                after_work-Finishes pool t.state _ _ open_now
                  (after_version_iff m.migrator ctx (read m environ uuid cfg t.state).0 _)
                  (close_migrator-state m.migrator ctx _
                    ∙ ap (λ z. (m.migrator.close z).2)
                        (after_version-state m.migrator ctx (read m environ uuid cfg t.state).0 _)))
        ]

    after_open-Reach :
        (id : Bytes) (t : Job m.migrator.State)
        (r : Result DbError m.pgx.Pool × Job m.migrator.State)
        → bootstrap m.library environ uuid ≡ ok (cfg, id)
        → ctx ≡ with_event_id (some background) id
        → Ends m.pgx ctx cfg.database t r
        → Reach m environ uuid
            (booting t.state)
            (stopped (after_open m environ cfg ctx r).0 (after_open m environ cfg ctx r).1.state)
    after_open-Reach id t (err x, after) booted is ends =
        step
          (connect_failed cfg id x t after booted
            (subst (λ k. Ends m.pgx k cfg.database t (err x, after)) is ends))
          (here _)
    after_open-Reach id t (ok pool, after) booted is ends =
        step
          (connect cfg id pool t after booted
            (subst (λ k. Ends m.pgx k cfg.database t (ok pool, after)) is ends))
          (assert_clean-Finishes pool after)

  after_bootstrap-Reach :
      (r : Result BootError (Config × Bytes)) (s : m.migrator.State)
      → bootstrap m.library environ uuid ≡ r
      → Reach m environ uuid
          (booting s)
          (stopped (after_bootstrap m environ r s).code (after_bootstrap m environ r s).job.state)
  after_bootstrap-Reach (err x) s e = step (boot_failed x s e) (here _)
  after_bootstrap-Reach (ok (cfg, id)) s e =
      let ctx = with_event_id (some background) id in
      let t : Job m.migrator.State = record { state = s; logs = [] } in
      after_open-Reach cfg ctx id t (open_pool m.pgx ctx (some cfg.database) false t) e refl
        (open_pool-Ends m.pgx ctx cfg.database t)

-- Every run of the program is a path of the phases, from booting to its exit code and to the world that
-- it leaves. Each phase has the world that the calls of its path have left: a run connects with the
-- configuration that was loaded, listens only after the pool has answered, the migrator of the gate
-- has opened and read a clean schema, and the keys are initialised and announced, and makes no other
-- call after a failure than the closing of the pool, if one is open, with the exit code 1.
pub run-Reach :
    (m : Machine) (environ : Environ) (uuid : Result Bytes Bytes) (s : m.migrator.State)
    → Reach m environ uuid
        (booting s)
        (stopped (run m environ uuid s).code (run m environ uuid s).job.state)
unfolding run
run-Reach m environ uuid s =
    after_bootstrap-Reach m environ uuid (bootstrap m.library environ uuid) s refl

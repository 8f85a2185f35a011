-- ===== src/Core/Serves.antt =====
-- A start on which every call succeeds.
use id_core.Prelude.{ℕ, ◌≡◌, refl, ap, sym, ◌∙◌, false, Option, none, some, [], Result, ok}
use id_core.Go.Bytes.{Bytes}
use id_core.Go.Context.{Context, background}
use id_core.Config.{Environ, Config}
use id_core.Logger.Context.{with_event_id}
use id_core.DbMigrate.{Job, MigrateError, assert_clean}
use id_core.DbMigrate.Gate.{IsClean, assert_clean_iff}
use id_core.Db.Dsn.{build_dsn}
use id_core.Db.Open.{PoolConfig, with_limits, open_pool}
use id_core.Keystore.{KeySet, Source}
use id_core.Keystore.Published.{Published, init-Published}
use id_core.Oidc.Jwks.{JwksHandler, new_jwks}
use id_core.Server.{HttpServer, new_server}
use id_core.Core.{
  Machine, Listened, closed, listen_failed, exit_ok, exit_error, resolve_migrations_source,
  bootstrap, init_keystore, after_listen, after_new_server, after_keystore, after_gate, run,
}
use id_core.Core.StartLogs.{emit_keystore_startup_logs}
use id_core.Core.Phases.{key_settings, server_of}
use id_core.Core.Arguments.{build_dsn-ne-nil, resolve_migrations_source-ne-nil}

abbrev code_of : Listened → ℕ
code_of closed = exit_ok
code_of (listen_failed e) = exit_error

module _ (m : Machine) (environ : Environ) where
  -- The pool opens and answers, the migrator opens and reads a clean schema, the keys are there and
  -- can be announced; `gated` is the world after the gate.
  pub record IsReady (ctx : Context) (cfg : Config) (s gated : m.migrator.State) (pool : m.pgx.Pool)
      (h : JwksHandler) : Type 0 where
    pub pool_cfg : PoolConfig m.pgx.Rest
    pub made : m.migrator.State
    pub pinged : m.migrator.State
    pub ks : KeySet m.crypto
    pub src : Source
    pub parses : m.pgx.parse_config (build_dsn cfg.database) ≡ ok pool_cfg
    pub connects : m.pgx.new_with_config ctx (with_limits cfg.database pool_cfg) s ≡ (ok pool, made)
    pub answers : m.pgx.ping ctx pool made ≡ (none, pinged)
    pub opens :
        (m.migrator.open_migrator
          (resolve_migrations_source environ)
          (build_dsn cfg.database)
          pinged).0
        ≡ none
    pub clean :
        IsClean
          (m.migrator.version
            (m.migrator.open_migrator
              (resolve_migrations_source environ)
              (build_dsn cfg.database)
              pinged).1).0
    pub leaves :
        (m.migrator.close
          (m.migrator.version
            (m.migrator.open_migrator
              (resolve_migrations_source environ)
              (build_dsn cfg.database)
              pinged).1).1).2
        ≡ gated
    pub keys : init_keystore m.crypto cfg.oidc ≡ ok (ks, src)
    pub announced : new_jwks m.crypto m.jwx m.base64_url (some ks) cfg.oidc.jwks_max_age ≡ ok h

  module _ (cfg : Config) (ctx : Context) where
    -- The exit code and the world.
    abbrev outcome : ℕ × Job m.migrator.State → ℕ × m.migrator.State
    outcome (code, t) = (code, t.state)

    abbrev lived : HttpServer → m.migrator.State → ℕ × m.migrator.State
    lived srv s = (code_of (m.listen srv s).0, (m.listen srv s).1)

    after_listen-outcome :
        (r : Listened) (t : Job m.migrator.State)
        → outcome (after_listen m environ cfg ctx r t) ≡ (code_of r, t.state)
    after_listen-outcome closed t = refl
    after_listen-outcome (listen_failed e) t = refl

    after_new_server-outcome :
        (ks : KeySet m.crypto) (h : JwksHandler) (t : Job m.migrator.State)
        → new_jwks m.crypto m.jwx m.base64_url (some ks) cfg.oidc.jwks_max_age ≡ ok h
        → outcome (
            after_new_server m environ cfg ctx
              (new_server m.crypto m.jwx m.base64_url cfg false false (some ks))
              t)
          ≡ lived (server_of m cfg h) t.state
    unfolding new_server
    after_new_server-outcome ks h t announced = rw announced (after_listen-outcome _ _)

    keys-Published :
        (ks : KeySet m.crypto) (src : Source)
        → init_keystore m.crypto cfg.oidc ≡ ok (ks, src)
        → Published m.crypto (key_settings cfg) ks src
    unfolding init_keystore
    keys-Published ks src keys = init-Published m.crypto (key_settings cfg) ks src keys

    after_keystore-outcome :
        (ks : KeySet m.crypto) (src : Source) (h : JwksHandler) (t : Job m.migrator.State)
        → init_keystore m.crypto cfg.oidc ≡ ok (ks, src)
        → new_jwks m.crypto m.jwx m.base64_url (some ks) cfg.oidc.jwks_max_age ≡ ok h
        → outcome (after_keystore m environ cfg ctx (init_keystore m.crypto cfg.oidc) t)
          ≡ lived (server_of m cfg h) t.state
    unfolding emit_keystore_startup_logs
    after_keystore-outcome ks src h t keys announced =
        let active = (keys-Published ks src keys).active ctx in
        rw (keys, active) (after_new_server-outcome ks h _ announced)

    after_gate-outcome :
        (ks : KeySet m.crypto) (src : Source) (h : JwksHandler)
        (r : Option MigrateError × Job m.migrator.State)
        → r.0 ≡ none
        → init_keystore m.crypto cfg.oidc ≡ ok (ks, src)
        → new_jwks m.crypto m.jwx m.base64_url (some ks) cfg.oidc.jwks_max_age ≡ ok h
        → outcome (after_gate m environ cfg ctx r) ≡ lived (server_of m cfg h) r.1.state
    after_gate-outcome ks src h (none, t) e = after_keystore-outcome ks src h t
    after_gate-outcome ks src h (some x, t) e = cc

    -- When everything is ready, the program serves: it listens with the server of its configuration, in
    -- the world after the gate, its exit code is 0 exactly for a server that was closed, and then it
    -- closes the pool.
    pub run-serves :
        (uuid : Result Bytes Bytes) (id : Bytes) (s gated : m.migrator.State) (pool : m.pgx.Pool)
        (h : JwksHandler)
        → ctx ≡ with_event_id (some background) id
        → bootstrap m.library environ uuid ≡ ok (cfg, id)
        → IsReady ctx cfg s gated pool h
        → ((run m environ uuid s).code ≡ code_of (m.listen (server_of m cfg h) gated).0)
          × ((run m environ uuid s).job.state
              ≡ m.pgx.close pool (m.listen (server_of m cfg h) gated).1)
    unfolding run open_pool
    run-serves uuid id s gated pool h is booted ready =
        let t : Job m.migrator.State = record { state = ready.pinged; logs = [] } in
        let (passed, left) =
          assert_clean_iff m.migrator ctx (build_dsn cfg.database)
            (resolve_migrations_source environ) t (build_dsn-ne-nil cfg.database)
            (resolve_migrations_source-ne-nil environ) ready.opens in
        let rest =
          after_gate-outcome ready.ks ready.src h
            (assert_clean m.migrator ctx (build_dsn cfg.database)
              (resolve_migrations_source environ) false t)
            (passed.1 ready.clean) ready.keys ready.announced
          ∙ ap (lived (server_of m cfg h)) (left ∙ ready.leaves) in
        rw (booted, sym is, ready.parses, ready.connects, ready.answers)
          (ap (λ r. r.0) rest, ap (λ r. m.pgx.close pool r.1) rest)

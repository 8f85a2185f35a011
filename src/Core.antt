-- ===== src/Core.antt =====
-- core/cmd/core/main.go: the start of the server, from the environment to the exit code.
pub mod StartLogs
pub mod Arguments
pub mod Phases
pub mod Refines
pub mod Balance
pub mod Serves
use id_core.Prelude.{
  ℕ, Bool, true, false, not, ◌&&◌, Option, none, some, List, [], ◌∷◌, ◌++◌, ltb, if◌then◌else◌,
  Result, ok, err, ◌>>=◌, map_err,
}
use id_core.Go.Bytes.{Bytes, bytes, has_prefix, is_empty}
use id_core.Go.Context.{Context, background}
use id_core.Go.Strconv.{decimal}
use id_core.Config.{
  Environ, Library, EnvName, prod, staging, dev, ConfigError, Config, OidcConfig, or_empty,
}
use id_core.Config.Load.{load}
use id_core.Logger.Context.{with_event_id}
use id_core.Logger.Output.{LogRecord, Format, format_from_env, info, warn, error, text, int, log}
use id_core.DbMigrate.{Job, Migrator, MigrateError, dirty, assert_clean}
use id_core.Db.Dsn.{build_dsn}
use id_core.Db.Open.{Pgx, DbError, open_pool}
use id_core.Keystore.{
  Crypto, KeyPair, KeyError, KeySet, bit_len, Source, source_file, source_generated, source_string,
  init,
}
use id_core.Core.StartLogs.{emit_keystore_startup_logs, emit_startup_log}
use id_core.Oidc.Jwks.{Jwx, JwksError}
use id_core.Server.{HttpServer, NewServer, panicked, failed, built, new_server}

abbrev pub exit_ok : ℕ
exit_ok = 0

abbrev pub exit_error : ℕ
exit_error = 1

-- The exit code of a Go program that panics.
abbrev pub exit_panic : ℕ
exit_panic = 2

abbrev pub default_migrations_source : Bytes
default_migrations_source = bytes "file://db/migrations"

-- CORE_MIGRATIONS_DIR, with or without the scheme.
unfoldable pub resolve_migrations_source : Environ → Bytes
unfolding has_prefix is_empty
resolve_migrations_source environ =
    let v = or_empty (environ "CORE_MIGRATIONS_DIR") in
    if is_empty v
    then default_migrations_source
    else if has_prefix v (bytes "file://")
    then v
    else bytes "file://" ++ v

-- The errors of bootstrap: of the configuration, of the format of the log, and of uuid.NewV7.
pub data BootError : Type 0 where
  config_failed : ConfigError → BootError
  logger_failed uuid_failed : Bytes → BootError

-- The errors that run logs.
pub data RunError : Type 0 where
  open_error : DbError → RunError
  gate_error : MigrateError → RunError
  keystore_error active_error : KeyError → RunError
  server_error : JwksError → RunError
  listen_error : Bytes → RunError

-- What ListenAndServe returns: no error or http.ErrServerClosed, or another error.
pub data Listened : Type 0 where
  closed : Listened
  listen_failed : Bytes → Listened

-- The libraries that the program is linked with, over one state of the world outside, the texts of
-- the errors that it logs (Error()), and the life of a server that listens.
pub record Machine : Type 1 where
  pub library : Library
  pub crypto : Crypto
  pub jwx : Jwx crypto.PublicKey
  pub base64_url : Bytes → Bytes
  pub migrator : Migrator
  pub pgx : Pgx migrator.State
  pub listen : HttpServer → migrator.State → Listened × migrator.State
  pub error_text : RunError → Bytes

-- `uuid` is what uuid.NewV7 gives, as a string.
unfoldable pub bootstrap :
    Library → Environ → Result Bytes Bytes → Result BootError (Config × Bytes)
unfolding format_from_env
bootstrap library environ uuid = do
  cfg ← map_err config_failed (load library environ)
  format ← map_err logger_failed (format_from_env (or_empty (environ "CORE_LOG_FORMAT")))
  id ← map_err uuid_failed uuid
  ok (cfg, id)

unfoldable pub init_keystore : (c : Crypto) → OidcConfig → Result KeyError (KeySet c × Source)
init_keystore c oidc = init c (record {
  key_file = oidc.key_file;
  dev_generate_key = oidc.dev_generate_key;
  key_id = oidc.key_id;
})

-- What run leaves: the exit code, the world and the log, and the error on stderr.
pub record Ended (S : Type 0) : Type 0 where
  pub code : ℕ
  pub job : Job S
  pub stderr : Option BootError

module _ (m : Machine) (environ : Environ) (cfg : Config) (ctx : Context) where
  abbrev pub World : Type 0
  World = Job m.migrator.State

  -- `l.Error(ctx, message, err)` and the return of exitError.
  abbrev pub give_up : Bytes → RunError → World → ℕ × World
  give_up message e t = (
    exit_error,
    record t { logs = log (some ctx) error message (some (m.error_text e)) [] t.logs },
  )

  abbrev pub after_listen : Listened → World → ℕ × World
  after_listen closed t = (exit_ok, t)
  after_listen (listen_failed e) t = give_up (bytes "サーバーの実行に失敗しました") (listen_error e) t

  abbrev pub after_new_server : NewServer → World → ℕ × World
  after_new_server (panicked message) t = (exit_panic, t)
  after_new_server (failed e) t = give_up (bytes "HTTP サーバーの構築に失敗しました") (server_error e) t
  after_new_server (built srv) t =
      let (result, s) = m.listen srv t.state in
      after_listen result (record { state = s; logs = emit_startup_log ctx srv.addr t.logs })

  abbrev pub after_key_logs : KeySet m.crypto → Option KeyError × List LogRecord → World → ℕ × World
  after_key_logs ks (some e, logs) t =
      give_up (bytes "鍵情報の取得に失敗しました") (active_error e) (record t { logs = logs })
  after_key_logs ks (none, logs) t =
      after_new_server (new_server m.crypto m.jwx m.base64_url cfg false false (some ks))
        (record t { logs = logs })

  abbrev pub after_keystore : Result KeyError (KeySet m.crypto × Source) → World → ℕ × World
  after_keystore (err e) t = give_up (bytes "鍵管理層の初期化に失敗しました") (keystore_error e) t
  after_keystore (ok (ks, src)) t =
      after_key_logs ks (emit_keystore_startup_logs m.crypto ctx ks src cfg.env t.logs) t

  abbrev pub gate_message : MigrateError → Bytes
  gate_message dirty =
      bytes "schema_migrations is dirty: 'make migrate-force VERSION=<n>' で復旧してください"
  gate_message _ = bytes "schema_migrations の整合性確認に失敗しました"

  abbrev pub after_gate : Option MigrateError × World → ℕ × World
  after_gate (some e, t) = give_up (gate_message e) (gate_error e) t
  after_gate (none, t) = after_keystore (init_keystore m.crypto cfg.oidc) t

  -- The deferred pool.Close.
  abbrev pub close_pool : m.pgx.Pool → ℕ × World → ℕ × World
  close_pool pool (code, t) = (code, record t { state = m.pgx.close pool t.state })

  abbrev pub after_open : Result DbError m.pgx.Pool × World → ℕ × World
  after_open (err e, t) = give_up (bytes "DB 接続に失敗しました") (open_error e) t
  after_open (ok pool, t) = close_pool pool (
      after_gate (
        assert_clean m.migrator ctx (build_dsn cfg.database) (resolve_migrations_source environ)
          false t))

module _ (m : Machine) (environ : Environ) where
  abbrev pub after_bootstrap :
      Result BootError (Config × Bytes) → m.migrator.State → Ended m.migrator.State
  after_bootstrap (err e) s = record {
    code = exit_error;
    job = record { state = s; logs = [] };
    stderr = some e;
  }
  after_bootstrap (ok (cfg, id)) s =
      let ctx = with_event_id (some background) id in
      let (code, t) =
        after_open m environ cfg ctx
          (open_pool m.pgx ctx (some cfg.database) false (record { state = s; logs = [] })) in
      record { code = code; job = t; stderr = none }

  unfoldable pub run : Result Bytes Bytes → m.migrator.State → Ended m.migrator.State
  run uuid s = after_bootstrap (bootstrap m.library environ uuid) s

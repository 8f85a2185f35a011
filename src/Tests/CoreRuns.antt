-- ===== src/Tests/CoreRuns.antt =====
-- A start of the server with small libraries.
use id_core.Prelude.{◌≡◌, refl, none, some, [], ◌∷◌, Result, ok}
use id_core.Go.Bytes.{Bytes, bytes, bytes_eq, is_empty, has_prefix}
use id_core.Core.{Machine, closed, bootstrap, resolve_migrations_source, init_keystore, run}
use id_core.DbMigrate.{validate_args, close_migrator, with_migrator, assert_clean}
use id_core.Db.Open.{open_pool}
use id_core.Db.Dsn.{build_dsn}
use id_core.Go.Url.{url_string}
use id_core.Keystore.{
  KeyPair, KeySet, source_generated, alg_rs256, init, choose_pair, generate_in_memory,
  build_key_pair, derive_kid, static_key_set,
}
use id_core.Oidc.Jwks.{
  JwksHandler, jwks_etag, jwks_cache_control, to_jwk, add_keys, build_set, new_jwks,
}
use id_core.Server.{new_server}
use id_core.Logger.Output.{format_from_env}
use id_core.Core.Serves.{IsReady, run-serves}
use id_core.Go.Context.{Context, background}
use id_core.Go.Hex.{hex_encode}
use id_core.Go.Strconv.{decimal}
use id_core.Logger.Context.{with_event_id}
use id_core.Core.StartLogs.{emit_keystore_startup_logs}
use id_core.Core.Phases.{booting, stopped, Reach}
use id_core.Core.Refines.{run-Reach}
use id_core.Core.Balance.{KeepsPools, run-IsBalanced}
use id_core.Tests.ConfigRuns.{lookup, library, environ, config, loaded}
use id_core.Tests.Toys.{toy_crypto, toy_jwx, toy_pgx, toy_pools, clean_schema}

-- The server listens until it is closed.
abbrev machine : Machine
machine = record {
  library = library;
  crypto = toy_crypto;
  jwx = toy_jwx;
  base64_url = λ s. s;
  migrator = clean_schema;
  pgx = toy_pgx;
  listen = λ srv s. (closed, s);
  error_text = λ e. [];
}

machine_keeps : KeepsPools machine (λ s. s)
machine_keeps = record {
  counts = toy_pools;
  opened = λ source dsn s. refl;
  read = λ s. refl;
  closed = λ s. refl;
  listened = λ srv s. refl;
}

abbrev event_id : Result Bytes Bytes
event_id = ok (bytes "0190-a")

run-Reach_example :
    Reach machine environ event_id
      (booting 0)
      (stopped (run machine environ event_id 0).code (run machine environ event_id 0).job.state)
run-Reach_example = run-Reach machine environ event_id 0

run-IsBalanced_example : (run machine environ event_id 0).job.state ≡ 0
run-IsBalanced_example = run-IsBalanced machine (λ s. s) machine_keeps environ event_id 0

log_format : environ "CORE_LOG_FORMAT" ≡ none
unfolding environ lookup bytes_eq
log_format = refl

booted : bootstrap library environ event_id ≡ ok (config, bytes "0190-a")
unfolding bootstrap format_from_env is_empty
booted = rw (loaded, log_format) refl

-- The whole start: from the environment to a server that has been closed.
served : (run machine environ event_id 0).code ≡ 0
unfolding run open_pool assert_clean with_migrator validate_args close_migrator init_keystore init
    choose_pair generate_in_memory build_key_pair derive_kid static_key_set
    emit_keystore_startup_logs new_server new_jwks build_set add_keys to_jwk build_dsn url_string
    is_empty resolve_migrations_source environ lookup bytes_eq has_prefix
served = rw booted refl

abbrev context : Context
context = with_event_id (some background) (bytes "0190-a")

abbrev generated : KeyPair toy_crypto
generated = record { kid = bytes "08"; public_key = some 8; private_key = some 7; alg = alg_rs256 }

abbrev pub generated_set : KeySet toy_crypto
generated_set = record { active = λ ctx. ok generated; verifying = λ ctx. ok (some generated ∷ []) }

abbrev pub handler : JwksHandler
handler = record {
  body = bytes "{}";
  etag = bytes "\"{}\"";
  cache = bytes "public, max-age=300, must-revalidate";
}

keys_made : init_keystore toy_crypto config.oidc ≡ ok (generated_set, source_generated)
unfolding init_keystore init choose_pair generate_in_memory build_key_pair derive_kid hex_encode
    static_key_set
keys_made = refl

pub handler_made : new_jwks toy_crypto toy_jwx (λ s. s) (some generated_set) 300 ≡ ok handler
unfolding new_jwks build_set add_keys to_jwk jwks_etag jwks_cache_control decimal
handler_made = refl

machine-IsReady : IsReady machine environ context config 0 1 tt handler
machine-IsReady = record {
  pool_cfg = record {
    max_conns = 4;
    min_conns = 0;
    max_conn_lifetime = 0;
    max_conn_idle_time = 0;
    health_check_period = 0;
    rest = tt;
  };
  made = 1;
  pinged = 1;
  ks = generated_set;
  src = source_generated;
  parses = refl;
  connects = refl;
  answers = refl;
  opens = refl;
  clean = refl;
  leaves = refl;
  keys = keys_made;
  announced = handler_made;
}

run-serves_example :
    ((run machine environ event_id 0).code ≡ 0) × ((run machine environ event_id 0).job.state ≡ 0)
run-serves_example =
    run-serves machine environ config context event_id (bytes "0190-a") 0 1 tt handler refl booted
      machine-IsReady

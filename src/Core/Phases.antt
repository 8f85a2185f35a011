-- ===== src/Core/Phases.antt =====
-- The start of the server as a machine of phases, without the log. The world of a phase is what the
-- calls of the libraries that have led to it leave, and nothing else.
use id_core.Prelude.{ℕ, ◌≡◌, Option, none, some, ◌∷◌, Result, ok, err}
use id_core.Go.Bytes.{Bytes}
use id_core.Go.Context.{Context, background}
use id_core.Go.Strconv.{decimal}
use id_core.Config.{Environ, Config}
use id_core.Logger.Context.{with_event_id}
use id_core.DbMigrate.{Job, Version}
use id_core.DbMigrate.Gate.{IsClean}
use id_core.Db.Dsn.{build_dsn}
use id_core.Db.Open.{DbError}
use id_core.Db.Open.Ends.{Ends}
use id_core.Keystore.{KeySet, KeyError, Source, OidcKeyConfig}
use id_core.Keystore.Published.{Published}
use id_core.Oidc.Jwks.{JwksError, JwksHandler, new_jwks}
use id_core.Oidc.Discovery.{new_discovery}
use id_core.Server.{HttpServer, read_header_timeout, server_routes}
use id_core.Core.{
  Machine, BootError, closed, listen_failed, exit_ok, exit_error, resolve_migrations_source,
  bootstrap, init_keystore,
}

-- The keys that the configuration names.
abbrev pub key_settings : Config → OidcKeyConfig
key_settings cfg = record {
  key_file = cfg.oidc.key_file;
  dev_generate_key = cfg.oidc.dev_generate_key;
  key_id = cfg.oidc.key_id;
}

-- The server of a configuration and the handler of its keys.
abbrev pub server_of : (m : Machine) → Config → JwksHandler → HttpServer
server_of m cfg h = record {
  addr = b':' ∷ decimal cfg.port;
  routes = server_routes (new_discovery m.crypto.sha256 m.base64_url cfg.oidc) h;
  read_header_timeout = read_header_timeout;
}

-- `uuid` is what uuid.NewV7 gives.
module _ (m : Machine) (environ : Environ) (uuid : Result Bytes Bytes) where
  abbrev pub State : Type 0
  State = m.migrator.State

  pub data Phase : Type 0 where
    booting : State → Phase
    connected : Config → m.pgx.Pool → State → Phase
    gated : Config → m.pgx.Pool → State → Phase
    keyed : Config → KeySet m.crypto → m.pgx.Pool → State → Phase
    listening : HttpServer → m.pgx.Pool → State → Phase
    closing : ℕ → m.pgx.Pool → State → Phase
    stopped : ℕ → State → Phase

  -- What the migrator of the gate gives: its opening, the version, and the world once it is closed.
  abbrev pub opened : Config → State → Option Bytes × State
  opened cfg s =
      m.migrator.open_migrator (resolve_migrations_source environ) (build_dsn cfg.database) s

  abbrev pub read : Config → State → Version × State
  read cfg s = m.migrator.version (opened cfg s).1

  abbrev pub left : Config → State → State
  left cfg s = (m.migrator.close (read cfg s).1).2

  -- The context of the start.
  abbrev pub context : Bytes → Context
  context id = with_event_id (some background) id

  -- Each step says when it is taken, and the world that it leaves. A failure after the database is
  -- connected leads to the closing of the pool, with the exit code 1.
  pub data Step : Phase → Phase → Type 0 where
    boot_failed :
        (e : BootError) (s : State)
        → bootstrap m.library environ uuid ≡ err e
        → Step (booting s) (stopped exit_error s)
    connect_failed :
        (cfg : Config) (id : Bytes) (e : DbError) (t late : Job State)
        → bootstrap m.library environ uuid ≡ ok (cfg, id)
        → Ends m.pgx (context id) cfg.database t (err e, late)
        → Step (booting t.state) (stopped exit_error late.state)
    connect :
        (cfg : Config) (id : Bytes) (pool : m.pgx.Pool) (t late : Job State)
        → bootstrap m.library environ uuid ≡ ok (cfg, id)
        → Ends m.pgx (context id) cfg.database t (ok pool, late)
        → Step (booting t.state) (connected cfg pool late.state)
    gate_shut :
        (cfg : Config) (pool : m.pgx.Pool) (s : State) (e : Bytes)
        → (opened cfg s).0 ≡ some e
        → Step (connected cfg pool s) (closing exit_error pool (opened cfg s).1)
    gate_failed :
        (cfg : Config) (pool : m.pgx.Pool) (s : State)
        → (opened cfg s).0 ≡ none
        → (IsClean (read cfg s).0 → ⊥)
        → Step (connected cfg pool s) (closing exit_error pool (left cfg s))
    gate_passed :
        (cfg : Config) (pool : m.pgx.Pool) (s : State)
        → (opened cfg s).0 ≡ none
        → IsClean (read cfg s).0
        → Step (connected cfg pool s) (gated cfg pool (left cfg s))
    keys_failed :
        (cfg : Config) (pool : m.pgx.Pool) (s : State) (e : KeyError)
        → init_keystore m.crypto cfg.oidc ≡ err e
        → Step (gated cfg pool s) (closing exit_error pool s)
    keys_ready :
        (cfg : Config) (ks : KeySet m.crypto) (src : Source) (pool : m.pgx.Pool) (s : State)
        → init_keystore m.crypto cfg.oidc ≡ ok (ks, src)
        → Published m.crypto (key_settings cfg) ks src
        → Step (gated cfg pool s) (keyed cfg ks pool s)
    server_failed :
        (cfg : Config) (ks : KeySet m.crypto) (pool : m.pgx.Pool) (s : State) (e : JwksError)
        → new_jwks m.crypto m.jwx m.base64_url (some ks) cfg.oidc.jwks_max_age ≡ err e
        → Step (keyed cfg ks pool s) (closing exit_error pool s)
    listen :
        (cfg : Config) (ks : KeySet m.crypto) (h : JwksHandler) (pool : m.pgx.Pool) (s : State)
        → new_jwks m.crypto m.jwx m.base64_url (some ks) cfg.oidc.jwks_max_age ≡ ok h
        → Step (keyed cfg ks pool s) (listening (server_of m cfg h) pool s)
    listen_ended :
        (srv : HttpServer) (pool : m.pgx.Pool) (s : State)
        → (m.listen srv s).0 ≡ closed
        → Step (listening srv pool s) (closing exit_ok pool (m.listen srv s).1)
    listen_broke :
        (srv : HttpServer) (pool : m.pgx.Pool) (s : State) (e : Bytes)
        → (m.listen srv s).0 ≡ listen_failed e
        → Step (listening srv pool s) (closing exit_error pool (m.listen srv s).1)
    close :
        (code : ℕ) (pool : m.pgx.Pool) (s : State)
        → Step (closing code pool s) (stopped code (m.pgx.close pool s))

  pub data Reach : Phase → Phase → Type 0 where
    here : (a : Phase) → Reach a a
    step : {a b c : Phase} → Step a b → Reach b c → Reach a c

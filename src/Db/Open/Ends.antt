-- ===== src/Db/Open/Ends.antt =====
-- How Open ends, branch by branch: the calls that it has made, the world, and the log.
use id_core.Prelude.{◌≡◌, refl, false, Option, none, some, [], ◌∷◌, ◌++◌, Result, ok, err}
use id_core.Go.Bytes.{Bytes, bytes}
use id_core.Go.Context.{Context}
use id_core.Config.{DatabaseConfig}
use id_core.Logger.Output.{error, group, LogRecord, log_record, log}
use id_core.DbMigrate.{Job}
use id_core.Db.Dsn.{build_dsn, safe_repr}
use id_core.Db.Open.{
  PoolConfig, Pgx, DbError, nil_config, nil_logger, parse_failed, new_failed, ping_failed,
  with_limits, after_ping, after_new, after_parse, open_pool,
}

-- The one record of a failure: a message, the error of the library, and what SafeRepr shows.
abbrev pub failure_record : Context → DatabaseConfig → Bytes → Bytes → LogRecord
failure_record ctx cfg message e =
    log_record (some ctx) error message (some e) ((bytes "params", group (safe_repr cfg)) ∷ [])

module _ {S : Type 0} (p : Pgx S) (ctx : Context) (cfg : DatabaseConfig) where
  -- The call of NewWithConfig, with the limits of the configuration.
  abbrev pub made : PoolConfig p.Rest → S → Result Bytes p.Pool × S
  made pool_cfg s = p.new_with_config ctx (with_limits cfg pool_cfg) s

  -- The world s, and one record more.
  abbrev pub failing : Bytes → Bytes → S → Job S → Job S
  failing message e s t = record {
    state = s;
    logs = t.logs ++ failure_record ctx cfg message e ∷ [];
  }

  -- The connection string parses, NewWithConfig gives the pool, and the first Ping gives `answer` and
  -- the world s.
  abbrev pub Pinged : p.Pool → Option Bytes → S → S → Type 0
  Pinged pool answer before s =
      (pool_cfg : PoolConfig p.Rest) × (opened : S) × (p.parse_config (build_dsn cfg) ≡ ok pool_cfg)
      × (made pool_cfg before ≡ (ok pool, opened))
      × (p.ping ctx pool opened ≡ (answer, s))

  -- The connection string parses, and NewWithConfig gives an error and the world s.
  abbrev pub Refused : Bytes → S → S → Type 0
  Refused e before s =
      (pool_cfg : PoolConfig p.Rest) × (p.parse_config (build_dsn cfg) ≡ ok pool_cfg)
      × (made pool_cfg before ≡ (err e, s))

  abbrev pub Ends : Job S → Result DbError p.Pool × Job S → Type 0
  Ends t (ok pool, after) = Pinged pool none t.state after.state × (after.logs ≡ t.logs)
  Ends t (err (parse_failed e), after) =
      (p.parse_config (build_dsn cfg) ≡ err e)
      × (after ≡ failing (bytes "DB DSN の parse に失敗しました") e t.state t)
  Ends t (err (new_failed e), after) =
      (s : S) × Refused e t.state s × (after ≡ failing (bytes "DB 接続プールの生成に失敗しました") e s t)
  Ends t (err (ping_failed e), after) =
      (s : S) × (pool : p.Pool) × Pinged pool (some e) t.state s
      × (after ≡ failing (bytes "DB 初回 Ping に失敗しました") e (p.close pool s) t)
  Ends t (err nil_config, after) = ⊥
  Ends t (err nil_logger, after) = ⊥

  after_ping-Ends :
      (pool_cfg : PoolConfig p.Rest) (pool : p.Pool) (t : Job S) (opened s : S)
      (answer : Option Bytes)
      → p.parse_config (build_dsn cfg) ≡ ok pool_cfg
      → made pool_cfg t.state ≡ (ok pool, opened)
      → p.ping ctx pool opened ≡ (answer, s)
      → Ends t (after_ping p ctx cfg pool answer (record t { state = s }))
  unfolding log
  after_ping-Ends pool_cfg pool t opened s none parsed new e =
      ((pool_cfg, opened, parsed, new, e), refl)
  after_ping-Ends pool_cfg pool t opened s (some x) parsed new e =
      (s, pool, (pool_cfg, opened, parsed, new, e), refl)

  after_new-Ends :
      (pool_cfg : PoolConfig p.Rest) (t : Job S) (s : S) (r : Result Bytes p.Pool)
      → p.parse_config (build_dsn cfg) ≡ ok pool_cfg
      → made pool_cfg t.state ≡ (r, s)
      → Ends t (after_new p ctx cfg r (record t { state = s }))
  unfolding log
  after_new-Ends pool_cfg t s (err x) parsed e = (s, (pool_cfg, parsed, e), refl)
  after_new-Ends pool_cfg t s (ok pool) parsed e =
      after_ping-Ends pool_cfg pool t s _ _ parsed e refl

  after_parse-Ends :
      (t : Job S) (r : Result Bytes (PoolConfig p.Rest))
      → p.parse_config (build_dsn cfg) ≡ r
      → Ends t (after_parse p ctx cfg r t)
  unfolding log
  after_parse-Ends t (err e) parsed = (parsed, refl)
  after_parse-Ends t (ok pool_cfg) parsed = after_new-Ends pool_cfg t _ _ parsed refl

  pub open_pool-Ends : (t : Job S) → Ends t (open_pool p ctx (some cfg) false t)
  unfolding open_pool
  open_pool-Ends t = after_parse-Ends t _ refl

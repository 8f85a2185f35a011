-- ===== src/Db/Open.antt =====
-- core/internal/db/db.go. pgxpool is the record Pgx, over the state of the database and its pools.
pub mod Ends
pub mod Balance
use id_core.Prelude.{
  ℕ, Bool, true, false, Option, none, some, [], ◌∷◌, Result, ok, err, if◌then◌else◌,
}
use id_core.Go.Bytes.{Bytes, bytes}
use id_core.Go.Context.{Context}
use id_core.Config.{DatabaseConfig}
use id_core.Logger.Output.{error, group, log}
use id_core.DbMigrate.{Job}
use id_core.Db.Dsn.{build_dsn, safe_repr}

-- pgxpool.Config: the fields that the code sets (the times in nanoseconds), and the others.
pub record PoolConfig (R : Type 0) : Type 0 where
  pub max_conns : ℕ
  pub min_conns : ℕ
  pub max_conn_lifetime : ℕ
  pub max_conn_idle_time : ℕ
  pub health_check_period : ℕ
  pub rest : R

-- ParseConfig, NewWithConfig, Ping and Close.
pub record Pgx (S : Type 0) : Type 1 where
  pub Rest : Type 0
  pub Pool : Type 0
  pub parse_config : Bytes → Result Bytes (PoolConfig Rest)
  pub new_with_config : Context → PoolConfig Rest → S → Result Bytes Pool × S
  pub ping : Context → Pool → S → Option Bytes × S
  pub close : Pool → S → S

pub data DbError : Type 0 where
  nil_config nil_logger : DbError
  parse_failed new_failed ping_failed : Bytes → DbError

-- The five assignments.
abbrev pub with_limits : {R : Type 0} → DatabaseConfig → PoolConfig R → PoolConfig R
with_limits cfg pool_cfg = record pool_cfg {
  max_conns = cfg.max_conns;
  min_conns = cfg.min_conns;
  max_conn_lifetime = cfg.max_conn_lifetime;
  max_conn_idle_time = cfg.max_conn_idle_time;
  health_check_period = cfg.health_check_period;
}

-- `l.Error(ctx, message, err, "params", SafeRepr(ctx, cfg))`.
abbrev pub log_failure : {S : Type 0} → Context → DatabaseConfig → Bytes → Bytes → Job S → Job S
log_failure ctx cfg message e t = record t {
  logs =
      log (some ctx) error message (some e) ((bytes "params", group (safe_repr cfg)) ∷ []) t.logs;
}

module _ {S : Type 0} (p : Pgx S) (ctx : Context) where
  -- The first Ping.
  abbrev pub after_ping :
      DatabaseConfig → p.Pool → Option Bytes → Job S → Result DbError p.Pool × Job S
  after_ping cfg pool none t = (ok pool, t)
  after_ping cfg pool (some e) t =
      let logged = log_failure ctx cfg (bytes "DB 初回 Ping に失敗しました") e t in
      (err (ping_failed e), record logged { state = p.close pool logged.state })

  abbrev pub after_new :
      DatabaseConfig → Result Bytes p.Pool → Job S → Result DbError p.Pool × Job S
  after_new cfg (err e) t =
      (err (new_failed e), log_failure ctx cfg (bytes "DB 接続プールの生成に失敗しました") e t)
  after_new cfg (ok pool) t =
      let (failure, s) = p.ping ctx pool t.state in
      after_ping cfg pool failure (record t { state = s })

  abbrev pub after_parse :
      DatabaseConfig → Result Bytes (PoolConfig p.Rest) → Job S → Result DbError p.Pool × Job S
  after_parse cfg (err e) t =
      (err (parse_failed e), log_failure ctx cfg (bytes "DB DSN の parse に失敗しました") e t)
  after_parse cfg (ok pool_cfg) t =
      let (made, s) = p.new_with_config ctx (with_limits cfg pool_cfg) t.state in
      after_new cfg made (record t { state = s })

  -- Open; `none` is a nil configuration, and `nil_log` says that the logger is nil.
  unfoldable pub open_pool : Option DatabaseConfig → Bool → Job S → Result DbError p.Pool × Job S
  open_pool none nil_log t = (err nil_config, t)
  open_pool (some cfg) true t = (err nil_logger, t)
  open_pool (some cfg) false t = after_parse cfg (p.parse_config (build_dsn cfg)) t

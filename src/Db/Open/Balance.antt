-- ===== src/Db/Open/Balance.antt =====
-- What Open leaves behind: pools and log records.
use id_core.Prelude.{ℕ, suc, ◌≡◌, sym, ap, ◌∙◌, Option, none, some, Result, ok, err}
use id_core.Go.Bytes.{Bytes}
use id_core.Go.Context.{Context}
use id_core.Config.{DatabaseConfig}
use id_core.DbMigrate.{Job}
use id_core.Db.Open.Ends.{Pinged, Refused, Ends}
use id_core.Db.Open.{
  nil_config, nil_logger, parse_failed, new_failed, ping_failed, PoolConfig, Pgx, DbError,
  with_limits,
}

-- The contract of pgxpool on the number of open pools: a pool that NewWithConfig gives is open until
-- Close, and nothing else opens or closes one.
pub record CountsPools {S : Type 0} (p : Pgx S) (pools : S → ℕ) : Type 0 where
  pub made :
      (ctx : Context) (cfg : PoolConfig p.Rest) (s : S) (pool : p.Pool)
      → (p.new_with_config ctx cfg s).0 ≡ ok pool
      → pools (p.new_with_config ctx cfg s).1 ≡ suc (pools s)
  pub refused :
      (ctx : Context) (cfg : PoolConfig p.Rest) (s : S) (e : Bytes)
      → (p.new_with_config ctx cfg s).0 ≡ err e
      → pools (p.new_with_config ctx cfg s).1 ≡ pools s
  pub pinged : (ctx : Context) (pool : p.Pool) (s : S) → pools (p.ping ctx pool s).1 ≡ pools s
  pub closed : (pool : p.Pool) (s : S) (n : ℕ) → pools s ≡ suc n → pools (p.close pool s) ≡ n

module _ {S : Type 0} (p : Pgx S) (pools : S → ℕ) (ctx : Context) where
  -- One pool more with a pool, and no more with an error.
  abbrev pub Balanced : Job S → Result DbError p.Pool × Job S → Type 0
  Balanced t (ok pool, after) = pools after.state ≡ suc (pools t.state)
  Balanced t (err e, after) = pools after.state ≡ pools t.state

  abbrev pub Opened : DatabaseConfig → Job S → Result DbError p.Pool × Job S → Type 0
  Opened cfg t r = Balanced t r × Ends p ctx cfg t r

  module _ (counts : CountsPools p pools) (cfg : DatabaseConfig) where
    Pinged-pools :
        (pool : p.Pool) (answer : Option Bytes) (before s : S)
        → Pinged p ctx cfg pool answer before s
        → pools s ≡ suc (pools before)
    Pinged-pools pool answer before s (pool_cfg, opened, parsed, new, ping) =
        ap (λ r. pools r.1) (sym ping)
        ∙ counts.pinged ctx pool opened
        ∙ ap (λ r. pools r.1) (sym new)
        ∙ counts.made ctx (with_limits cfg pool_cfg) before pool (ap (λ r. r.0) new)

    Refused-pools :
        (e : Bytes) (before s : S) → Refused p ctx cfg e before s → pools s ≡ pools before
    Refused-pools e before s (pool_cfg, parsed, new) =
        ap (λ r. pools r.1) (sym new)
        ∙ counts.refused ctx (with_limits cfg pool_cfg) before e (ap (λ r. r.0) new)

    pub Ends-Balanced :
        (t : Job S) (r : Result DbError p.Pool × Job S) → Ends p ctx cfg t r → Balanced t r
    Ends-Balanced t (ok pool, after) (pinged, same) =
        Pinged-pools pool none t.state after.state pinged
    Ends-Balanced t (err (parse_failed e), after) (parsed, left) = ap (λ u. pools u.state) left
    Ends-Balanced t (err (new_failed e), after) (s, refused, left) =
        ap (λ u. pools u.state) left ∙ Refused-pools e t.state s refused
    Ends-Balanced t (err (ping_failed e), after) (s, pool, pinged, left) =
        ap (λ u. pools u.state) left
        ∙ counts.closed pool s (pools t.state) (Pinged-pools pool (some e) t.state s pinged)
    Ends-Balanced t (err nil_config, after) h = absurd h
    Ends-Balanced t (err nil_logger, after) h = absurd h

-- ===== src/Core/Balance.antt =====
-- The pools that a phase holds, and what a run leaves.
use id_core.Prelude.{ℕ, suc, ◌≡◌, refl, ap, ◌∙◌, ok, err, Result}
use id_core.Go.Bytes.{Bytes}
use id_core.Config.{Environ, Config}
use id_core.Db.Open.Balance.{CountsPools, Ends-Balanced}
use id_core.Server.{HttpServer}
use id_core.Core.{Machine, run}
use id_core.Core.Phases.{
  Phase, booting, connected, gated, keyed, listening, closing, stopped, opened, read, left, context,
  Step, boot_failed, connect_failed, connect, gate_shut, gate_failed, gate_passed, keys_failed,
  keys_ready, server_failed, listen, listen_ended, listen_broke, close, Reach, here, step,
}
use id_core.Core.Refines.{run-Reach}

-- The contract: pgxpool counts its pools, and neither golang-migrate, which has connections of its
-- own, nor the server that listens opens or closes one.
pub record KeepsPools (m : Machine) (pools : m.migrator.State → ℕ) : Type 0 where
  pub counts : CountsPools m.pgx pools
  pub opened :
      (source dsn : Bytes) (s : m.migrator.State)
      → pools (m.migrator.open_migrator source dsn s).1 ≡ pools s
  pub read : (s : m.migrator.State) → pools (m.migrator.version s).1 ≡ pools s
  pub closed : (s : m.migrator.State) → pools (m.migrator.close s).2 ≡ pools s
  pub listened : (srv : HttpServer) (s : m.migrator.State) → pools (m.listen srv s).1 ≡ pools s

module _ (m : Machine) (pools : m.migrator.State → ℕ) (keeps : KeepsPools m pools) where
  module _ (environ : Environ) (uuid : Result Bytes Bytes) where
    -- One pool more than `n` is open, except before the connection and at the end.
    abbrev IsBalanced : ℕ → Phase m environ uuid → Type 0
    IsBalanced n (booting s) = pools s ≡ n
    IsBalanced n (connected cfg pool s) = pools s ≡ suc n
    IsBalanced n (gated cfg pool s) = pools s ≡ suc n
    IsBalanced n (keyed cfg ks pool s) = pools s ≡ suc n
    IsBalanced n (listening srv pool s) = pools s ≡ suc n
    IsBalanced n (closing code pool s) = pools s ≡ suc n
    IsBalanced n (stopped code s) = pools s ≡ n

    left-pools : (cfg : Config) (s : m.migrator.State) → pools (left m environ uuid cfg s) ≡ pools s
    left-pools cfg s =
        keeps.closed (read m environ uuid cfg s).1
        ∙ keeps.read (opened m environ uuid cfg s).1
        ∙ keeps.opened _ _ s

    Step-IsBalanced :
        (n : ℕ) {a b : Phase m environ uuid}
        → Step m environ uuid a b
        → IsBalanced n a
        → IsBalanced n b
    Step-IsBalanced n (boot_failed e s f) h = h
    Step-IsBalanced n (connect_failed cfg id e t late booted ends) h =
        Ends-Balanced m.pgx pools (context m environ uuid id) keeps.counts cfg.database t
          (err e, late) ends
        ∙ h
    Step-IsBalanced n (connect cfg id pool t late booted ends) h =
        Ends-Balanced m.pgx pools (context m environ uuid id) keeps.counts cfg.database t
          (ok pool, late) ends
        ∙ ap suc h
    Step-IsBalanced n (gate_shut cfg pool s e shut) h = keeps.opened _ _ s ∙ h
    Step-IsBalanced n (gate_failed cfg pool s open_now unclean) h = left-pools cfg s ∙ h
    Step-IsBalanced n (gate_passed cfg pool s open_now clean) h = left-pools cfg s ∙ h
    Step-IsBalanced n (keys_failed cfg pool s e f) h = h
    Step-IsBalanced n (keys_ready cfg ks src pool s i p) h = h
    Step-IsBalanced n (server_failed cfg ks pool s e f) h = h
    Step-IsBalanced n (listen cfg ks hd pool s a) h = h
    Step-IsBalanced n (listen_ended srv pool s e) h = keeps.listened srv s ∙ h
    Step-IsBalanced n (listen_broke srv pool s x e) h = keeps.listened srv s ∙ h
    Step-IsBalanced n (close code pool s) h = keeps.counts.closed pool s n h

    Reach-IsBalanced :
        (n : ℕ) {a b : Phase m environ uuid}
        → Reach m environ uuid a b
        → IsBalanced n a
        → IsBalanced n b
    Reach-IsBalanced n (here a) h = h
    Reach-IsBalanced n (step first rest) h = Reach-IsBalanced n rest (Step-IsBalanced n first h)

  -- Whatever fails, a run leaves as many pools open as there were before it.
  pub run-IsBalanced :
      (environ : Environ) (uuid : Result Bytes Bytes) (s : m.migrator.State)
      → pools (run m environ uuid s).job.state ≡ pools s
  run-IsBalanced environ uuid s =
      Reach-IsBalanced environ uuid (pools s) (run-Reach m environ uuid s) refl

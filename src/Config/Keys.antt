-- ===== src/Config/Keys.antt =====
-- The sources of the signing key that loadKeySource of core/internal/config/config.go accepts.
use id_core.Prelude.{Bool, true, false, [], ◌∷◌, ◌≡◌, ◌≢◌, ◌↔◌, ◌⊎◌, arith, ok}
use id_core.Go.Bytes.{Bytes, is_empty}
use id_core.Config.{EnvName, prod, staging, dev}
use id_core.Config.Load.{choose_key_source}

-- Exactly one source, and in production the file.
abbrev pub OneSource : EnvName → Bytes → Bool → Type 0
OneSource prod file gen = (file ≢ []) × (gen ≡ false)
OneSource staging file gen = ((file ≢ []) × (gen ≡ false)) ⊎ ((file ≡ []) × (gen ≡ true))
OneSource dev file gen = ((file ≢ []) × (gen ≡ false)) ⊎ ((file ≡ []) × (gen ≡ true))

-- The choice succeeds just when there is exactly one source, which in production is the file, and
-- then gives the file and the flag as they are.
pub choose_key_source_iff :
    (env : EnvName) (file : Bytes) (gen : Bool) (x : Bytes × Bool)
    → (choose_key_source env file gen ≡ ok x) ↔ (OneSource env file gen × (x ≡ (file, gen)))
unfolding choose_key_source is_empty
choose_key_source_iff prod [] gen x = ((λ e. ground arith), (λ h. ground arith))
choose_key_source_iff prod (c ∷ s) gen x = ((λ e. ground arith), (λ h. ground arith))
choose_key_source_iff staging [] gen x = ((λ e. ground arith), (λ h. ground arith))
choose_key_source_iff staging (c ∷ s) gen x = ((λ e. ground arith), (λ h. ground arith))
choose_key_source_iff dev [] gen x = ((λ e. ground arith), (λ h. ground arith))
choose_key_source_iff dev (c ∷ s) gen x = ((λ e. ground arith), (λ h. ground arith))

-- ===== src/Core/StartLogs.antt =====
-- The log lines of core/cmd/core/main.go at the start: emitKeystoreStartupLogs and emitStartupLog.
use id_core.Prelude.{
  ℕ, ◌&&◌, Option, none, some, List, [], ◌∷◌, ◌++◌, ltb, if◌then◌else◌, Result, ok, err,
}
use id_core.Go.Bytes.{Bytes, bytes}
use id_core.Go.Context.{Context}
use id_core.Go.Strconv.{decimal}
use id_core.Config.{EnvName, prod, staging, dev}
use id_core.Logger.Output.{LogRecord, info, warn, text, int, log}
use id_core.Keystore.{
  Crypto, KeyPair, KeyError, KeySet, bit_len, Source, source_file, source_generated, source_string,
}

abbrev pub recommended_min_key_bit_len : ℕ
recommended_min_key_bit_len = 2048

unfoldable pub env_string : EnvName → Bytes
env_string prod = bytes "prod"
env_string staging = bytes "staging"
env_string dev = bytes "dev"

abbrev pub warn_generated : Context → Source → List LogRecord → List LogRecord
warn_generated ctx source_file logs = logs
warn_generated ctx source_generated logs =
    log (some ctx) warn
      (bytes "dev 鍵生成モード = 単一 Pod 専用、複数 Pod 環境では CORE_OIDC_KEY_FILE で共有 Secret を使え") none [] logs

unfoldable pub warn_weak : Context → ℕ → List LogRecord → List LogRecord
warn_weak ctx length logs =
    if ltb 0 length && ltb length recommended_min_key_bit_len
    then log (some ctx) warn
        (bytes "鍵長 "
          ++ (decimal length
              ++ (bytes " bit は RS256 として弱い、"
                  ++ (decimal recommended_min_key_bit_len ++ bytes " bit 以上を推奨"))))
        none ((bytes "bit_len", int length) ∷ []) logs
    else logs

abbrev pub log_pair :
    (c : Crypto) → Context → KeyPair c → Source → EnvName → List LogRecord → List LogRecord
log_pair c ctx pair src env logs = warn_weak ctx (bit_len c (some pair)) (
    warn_generated ctx src (
      log (some ctx) info (bytes "起動鍵情報") none
        ((bytes "kid", text pair.kid)
          ∷ (bytes "alg", text pair.alg)
          ∷ (bytes "source", text (source_string src))
          ∷ (bytes "env", text (env_string env))
          ∷ [])
        logs))

abbrev pub with_active :
    (c : Crypto)
    → Context
    → Result KeyError (KeyPair c)
    → Source
    → EnvName
    → List LogRecord
    → Option KeyError × List LogRecord
with_active c ctx (err e) src env logs = (some e, logs)
with_active c ctx (ok pair) src env logs = (none, log_pair c ctx pair src env logs)

unfoldable pub emit_keystore_startup_logs :
    (c : Crypto)
    → Context
    → KeySet c
    → Source
    → EnvName
    → List LogRecord
    → Option KeyError × List LogRecord
emit_keystore_startup_logs c ctx ks src env logs = with_active c ctx (ks.active ctx) src env logs

unfoldable pub emit_startup_log : Context → Bytes → List LogRecord → List LogRecord
emit_startup_log ctx addr logs =
    log (some ctx) info (bytes "core サーバーを起動します") none ((bytes "addr", text addr) ∷ []) logs

-- ===== src/Config/Load.antt =====
-- The functions of config.go from Load down.
use id_core.Prelude.{
  ℕ, Bool, true, false, not, ◌||◌, ◌&&◌, Option, none, some, String, ltb, if◌then◌else◌, ok, err,
  ◌>>=◌, ◌>>◌, reject_if,
}
use id_core.Prelude.Int.{ℤ, is_negative, to_ℕ}
use id_core.Go.Bytes.{Bytes, bytes, bytes_eq, is_empty}
use id_core.Go.Split.{trim_right}
use id_core.Config.{
  Environ, ParsedUrl, Library, EnvName, prod, staging, dev, env_invalid, ssl_mode_invalid,
  pool_order, not_duration, negative_duration, issuer_unparsable, issuer_scheme, issuer_no_host,
  issuer_reparse, issuer_insecure, generate_flag_invalid, generate_in_prod, key_file_missing,
  two_key_sources, no_key_source, endpoint_invalid, Loaded, default_port, min_port, max_port,
  default_pool_max_conns, default_pool_min_conns, default_pool_max_conn_lifetime,
  default_pool_max_conn_idle_time, default_pool_health_check_period, default_ssl_mode,
  default_jwks_max_age, default_discovery_max_age, oidc_max_max_age, valid_ssl_modes,
  DatabaseConfig, OidcConfig, Config, non_empty, or_empty, contains, read_integer, read_int32,
  or_default, or_missing,
}

abbrev pub read_env_name : Bytes → Loaded EnvName
read_env_name raw =
    if bytes_eq raw (bytes "prod")
    then ok prod
    else if bytes_eq raw (bytes "staging")
    then ok staging
    else if bytes_eq raw (bytes "dev")
    then ok dev
    else err (env_invalid raw)

unfoldable pub load_env : Environ → Loaded EnvName
load_env e = or_missing (non_empty (e "CORE_ENV")) "CORE_ENV" read_env_name

unfoldable pub load_port : Environ → Loaded ℕ
load_port e =
    or_default (non_empty (e "CORE_PORT")) default_port (read_integer "CORE_PORT" min_port max_port)

unfoldable pub required_string : Environ → String → Loaded Bytes
required_string e key = or_missing (non_empty (e key)) key (λ v. ok v)

unfoldable pub required_port : Environ → String → Loaded ℕ
required_port e key = or_missing (non_empty (e key)) key (read_integer key min_port max_port)

abbrev pub read_ssl_mode : Option Bytes → Loaded Bytes
read_ssl_mode none = ok default_ssl_mode
read_ssl_mode (some raw) =
    if contains valid_ssl_modes raw then ok raw else err (ssl_mode_invalid raw)

unfoldable pub load_ssl_mode : Environ → Loaded Bytes
load_ssl_mode e = read_ssl_mode (non_empty (e "CORE_DB_SSLMODE"))

unfoldable pub positive_int32 : Environ → String → ℕ → Loaded ℕ
positive_int32 e key def = or_default (non_empty (e key)) def (read_int32 key 1)

unfoldable pub non_negative_int32 : Environ → String → ℕ → Loaded ℕ
non_negative_int32 e key def = or_default (non_empty (e key)) def (read_int32 key 0)

unfoldable pub load_max_age : Environ → String → ℕ → Loaded ℕ
load_max_age e key def = or_default (non_empty (e key)) def (read_integer key 0 oidc_max_max_age)

-- The switch on CORE_OIDC_DEV_GENERATE_KEY.
abbrev pub read_generate_flag : Option Bytes → Loaded Bool
read_generate_flag none = ok false
read_generate_flag (some raw) =
    if bytes_eq raw (bytes "0")
    then ok false
    else if bytes_eq raw (bytes "1")
    then ok true
    else err (generate_flag_invalid raw)

-- The rules for the two sources, by environment.
unfoldable pub choose_key_source : EnvName → Bytes → Bool → Loaded (Bytes × Bool)
choose_key_source prod key_file dev_gen = do
  reject_if dev_gen generate_in_prod
  reject_if (is_empty key_file) key_file_missing
  ok (key_file, false)
choose_key_source env key_file dev_gen = do
  reject_if (is_empty key_file && not dev_gen) (no_key_source env)
  reject_if (not (is_empty key_file) && dev_gen) two_key_sources
  ok (key_file, dev_gen)

unfoldable pub load_key_source : Environ → EnvName → Loaded (Bytes × Bool)
load_key_source e env = do
  dev_gen ← read_generate_flag (non_empty (e "CORE_OIDC_DEV_GENERATE_KEY"))
  choose_key_source env (or_empty (e "CORE_OIDC_KEY_FILE")) dev_gen

abbrev pub is_dev : EnvName → Bool
is_dev dev = true
is_dev _ = false

unfoldable pub check_issuer : EnvName → Bytes → ParsedUrl → Loaded Bytes
check_issuer env raw u = do
  reject_if (not (bytes_eq u.scheme (bytes "https")) && not (bytes_eq u.scheme (bytes "http")))
      (issuer_scheme raw)
  reject_if (bytes_eq u.scheme (bytes "http") && not (is_dev env)) (issuer_insecure env raw)
  reject_if (is_empty u.host) (issuer_no_host raw)
  ok (trim_right raw b'/')

abbrev pub is_absolute : Option ParsedUrl → Bool
is_absolute none = false
is_absolute (some u) = not (is_empty u.scheme || is_empty u.host)

module _ (lib : Library) where
  abbrev pub parse_issuer : EnvName → Bytes → Option ParsedUrl → Loaded Bytes
  parse_issuer env raw none = err (issuer_unparsable raw)
  parse_issuer env raw (some u) = check_issuer env raw u

  unfoldable pub load_issuer : Environ → EnvName → Loaded Bytes
  load_issuer e env =
      or_missing (non_empty (e "CORE_OIDC_ISSUER")) "CORE_OIDC_ISSUER"
        λ raw. parse_issuer env raw (lib.parse_url raw)

  abbrev pub built_endpoint : Bytes → Bytes → Option ParsedUrl → Loaded Bytes
  built_endpoint issuer path none = err (issuer_reparse issuer)
  built_endpoint issuer path (some u) = ok (lib.join_path issuer path)

  abbrev pub override_endpoint : Bytes → String → Bytes → Option Bytes → Loaded Bytes
  override_endpoint issuer key path none = built_endpoint issuer path (lib.parse_url issuer)
  override_endpoint issuer key path (some raw) =
      if is_absolute (lib.parse_url raw) then ok raw else err (endpoint_invalid key raw)

  unfoldable pub resolve_endpoint : Environ → Bytes → String → Bytes → Loaded Bytes
  resolve_endpoint e issuer key path = override_endpoint issuer key path (non_empty (e key))

  abbrev checked_duration : String → Bytes → Option ℤ → Loaded ℕ
  checked_duration key raw none = err (not_duration key raw)
  checked_duration key raw (some v) =
      if is_negative v then err (negative_duration key v) else ok (to_ℕ v)

  unfoldable pub non_negative_duration : Environ → String → ℕ → Loaded ℕ
  non_negative_duration e key def =
      or_default (non_empty (e key)) def (λ raw. checked_duration key raw (lib.parse_duration raw))

  unfoldable pub load_database : Environ → Loaded DatabaseConfig
  load_database e = do
    host ← required_string e "CORE_DB_HOST"
    port ← required_port e "CORE_DB_PORT"
    user ← required_string e "CORE_DB_USER"
    password ← required_string e "CORE_DB_PASSWORD"
    db_name ← required_string e "CORE_DB_NAME"
    ssl_mode ← load_ssl_mode e
    max_conns ← positive_int32 e "CORE_DB_POOL_MAX_CONNS" default_pool_max_conns
    min_conns ← non_negative_int32 e "CORE_DB_POOL_MIN_CONNS" default_pool_min_conns
    reject_if (ltb max_conns min_conns) (pool_order min_conns max_conns)
    lifetime ←
        non_negative_duration e "CORE_DB_POOL_MAX_CONN_LIFETIME" default_pool_max_conn_lifetime
    idle ← non_negative_duration e "CORE_DB_POOL_MAX_CONN_IDLE_TIME" default_pool_max_conn_idle_time
    hc ← non_negative_duration e "CORE_DB_POOL_HEALTH_CHECK_PERIOD" default_pool_health_check_period
    ok (record {
      host = host;
      port = port;
      user = user;
      password = password;
      db_name = db_name;
      ssl_mode = ssl_mode;
      max_conns = max_conns;
      min_conns = min_conns;
      max_conn_lifetime = lifetime;
      max_conn_idle_time = idle;
      health_check_period = hc;
    })

  unfoldable pub load_oidc : Environ → EnvName → Loaded OidcConfig
  load_oidc e env = do
    issuer ← load_issuer e env
    key_source ← load_key_source e env
    let key_id = or_empty (e "CORE_OIDC_KEY_ID")
    jwks_max_age ← load_max_age e "CORE_OIDC_JWKS_MAX_AGE" default_jwks_max_age
    discovery_max_age ← load_max_age e "CORE_OIDC_DISCOVERY_MAX_AGE" default_discovery_max_age
    auth ← resolve_endpoint e issuer "CORE_OIDC_AUTHORIZATION_ENDPOINT" (bytes "/authorize")
    token ← resolve_endpoint e issuer "CORE_OIDC_TOKEN_ENDPOINT" (bytes "/token")
    userinfo ← resolve_endpoint e issuer "CORE_OIDC_USERINFO_ENDPOINT" (bytes "/userinfo")
    jwks_uri ← resolve_endpoint e issuer "CORE_OIDC_JWKS_URI" (bytes "/jwks")
    ok (record {
      issuer = issuer;
      key_file = key_source.0;
      dev_generate_key = key_source.1;
      key_id = key_id;
      jwks_max_age = jwks_max_age;
      discovery_max_age = discovery_max_age;
      authorization_endpoint = auth;
      token_endpoint = token;
      user_info_endpoint = userinfo;
      jwks_uri = jwks_uri;
    })

  unfoldable pub load : Environ → Loaded Config
  load e = do
    env ← load_env e
    port ← load_port e
    database ← load_database e
    oidc ← load_oidc e env
    ok (record { env = env; port = port; database = database; oidc = oidc })

-- ===== src/Config.antt =====
-- core/internal/config/config.go: the settings, their defaults, and the readers of single variables.
pub mod Load
pub mod Numbers
pub mod Bounds
pub mod Issuer
pub mod Keys
pub mod Valid
use id_core.Prelude.{
  ℕ, ◌*◌, Bool, true, false, ◌||◌, Option, none, some, List, [], ◌∷◌, String, if◌then◌else◌, Result,
  ok, err, ◌>>=◌, ◌>>◌, reject_if, map_err,
}
use id_core.Prelude.Int.{ℤ, pos, negsuc, below, above, is_negative, to_ℕ}
use id_core.Go.Bytes.{Bytes, bytes, bytes_eq, is_empty}
use id_core.Go.Strconv.{NumError, parse_int, atoi, int32_half}

-- The variables of the process; an unset one is `none` (os.LookupEnv).
abbrev pub Environ : Type 0
Environ = String → Option Bytes

-- The parts of a parsed url.URL that the loader reads.
pub record ParsedUrl : Type 0 where
  pub scheme : Bytes
  pub host : Bytes

-- net/url and time: url.Parse, base.JoinPath(path).String() for a parsed base, and
-- time.ParseDuration in nanoseconds; `none` is an error.
pub record Library : Type 0 where
  pub parse_url : Bytes → Option ParsedUrl
  pub join_path : Bytes → Bytes → Bytes
  pub parse_duration : Bytes → Option ℤ

pub data EnvName : Type 0 where
  prod staging dev : EnvName

-- The errors of Load, with what their messages quote.
pub data ConfigError : Type 0 where
  missing : String → ConfigError
  env_invalid : Bytes → ConfigError
  not_integer : String → Bytes → ConfigError
  out_of_range : String → ℤ → ConfigError
  ssl_mode_invalid : Bytes → ConfigError
  pool_order : ℕ → ℕ → ConfigError
  not_duration : String → Bytes → ConfigError
  negative_duration : String → ℤ → ConfigError
  issuer_unparsable issuer_scheme issuer_no_host issuer_reparse : Bytes → ConfigError
  issuer_insecure : EnvName → Bytes → ConfigError
  generate_flag_invalid : Bytes → ConfigError
  generate_in_prod key_file_missing two_key_sources : ConfigError
  no_key_source : EnvName → ConfigError
  endpoint_invalid : String → Bytes → ConfigError

abbrev pub Loaded : Type 0 → Type 0
Loaded = Result ConfigError

abbrev pub default_port : ℕ
default_port = 8080

abbrev pub min_port : ℕ
min_port = 1

abbrev pub max_port : ℕ
max_port = 65535

abbrev pub default_pool_max_conns : ℕ
default_pool_max_conns = 10

abbrev pub default_pool_min_conns : ℕ
default_pool_min_conns = 1

-- Durations are in nanoseconds.
abbrev pub second : ℕ
second = 1000000000

abbrev pub default_pool_max_conn_lifetime : ℕ
default_pool_max_conn_lifetime = 300 * second

abbrev pub default_pool_max_conn_idle_time : ℕ
default_pool_max_conn_idle_time = 120 * second

abbrev pub default_pool_health_check_period : ℕ
default_pool_health_check_period = 30 * second

abbrev pub default_ssl_mode : Bytes
default_ssl_mode = bytes "disable"

abbrev pub default_jwks_max_age : ℕ
default_jwks_max_age = 300

abbrev pub default_discovery_max_age : ℕ
default_discovery_max_age = 0

abbrev pub oidc_max_max_age : ℕ
oidc_max_max_age = 86400

abbrev pub valid_ssl_modes : List Bytes
valid_ssl_modes =
    bytes "disable"
    ∷ bytes "allow"
    ∷ bytes "prefer"
    ∷ bytes "require"
    ∷ bytes "verify-ca"
    ∷ bytes "verify-full"
    ∷ []

pub record DatabaseConfig : Type 0 where
  pub host : Bytes
  pub port : ℕ
  pub user : Bytes
  pub password : Bytes
  pub db_name : Bytes
  pub ssl_mode : Bytes
  pub max_conns : ℕ
  pub min_conns : ℕ
  pub max_conn_lifetime : ℕ
  pub max_conn_idle_time : ℕ
  pub health_check_period : ℕ

pub record OidcConfig : Type 0 where
  pub issuer : Bytes
  pub key_file : Bytes
  pub dev_generate_key : Bool
  pub key_id : Bytes
  pub jwks_max_age : ℕ
  pub discovery_max_age : ℕ
  pub authorization_endpoint : Bytes
  pub token_endpoint : Bytes
  pub user_info_endpoint : Bytes
  pub jwks_uri : Bytes

pub record Config : Type 0 where
  pub env : EnvName
  pub port : ℕ
  pub database : DatabaseConfig
  pub oidc : OidcConfig

-- The test `!ok || raw == ""` that every reader begins with: unset and empty are one.
abbrev pub non_empty : Option Bytes → Option Bytes
non_empty none = none
non_empty (some []) = none
non_empty (some (c ∷ s)) = some (c ∷ s)

-- os.Getenv.
abbrev pub or_empty : Option Bytes → Bytes
or_empty none = []
or_empty (some s) = s

abbrev pub contains : List Bytes → Bytes → Bool
contains [] s = false
contains (t ∷ ts) s = if bytes_eq t s then true else contains ts s

-- The range check of an integer that has been read: lo ≤ v ≤ hi.
unfoldable pub in_range : String → ℕ → ℕ → ℤ → Loaded ℕ
in_range key lo hi v = if below v lo || above v hi then err (out_of_range key v) else ok (to_ℕ v)

unfoldable pub read_integer : String → ℕ → ℕ → Bytes → Loaded ℕ
read_integer key lo hi raw = map_err (λ _. not_integer key raw) (atoi raw) >>= in_range key lo hi

-- strconv.ParseInt(raw, 10, 32), and a lower bound; the type bounds it above.
unfoldable pub read_int32 : String → ℕ → Bytes → Loaded ℕ
read_int32 key lo raw = map_err (λ _. not_integer key raw) (parse_int int32_half raw) >>= λ v.
    if below v lo then err (out_of_range key v) else ok (to_ℕ v)

-- `if !ok || raw == "" { return def, nil }` in front of a reader.
abbrev pub or_default : Option Bytes → ℕ → (Bytes → Loaded ℕ) → Loaded ℕ
or_default none def read = ok def
or_default (some raw) def read = read raw

abbrev pub or_missing : {A : Type 0} → Option Bytes → String → (Bytes → Loaded A) → Loaded A
or_missing none key read = err (missing key)
or_missing (some raw) key read = read raw

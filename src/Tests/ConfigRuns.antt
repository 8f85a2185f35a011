-- ===== src/Tests/ConfigRuns.antt =====
-- core/internal/config on concrete environments.
use id_core.Prelude.{
  Bool, true, Option, none, some, List, [], ◌∷◌, ◌++◌, ◌==◌, ◌≡◌, ◌↔◌, refl, ok, if◌then◌else◌,
}
use id_core.Go.Bytes.{Bytes, bytes, bytes_eq, is_empty}
use id_core.Go.Strconv.{decimal, atoi, parse_int, parse_magnitude, parse_uint, parse_digits}
use id_core.Go.Split.{trim_right}
use id_core.Config.{
  Environ, Library, dev, Config, DatabaseConfig, in_range, read_integer, read_int32,
}
use id_core.Config.Load.{
  load_env, load_port, required_string, required_port, load_ssl_mode, positive_int32,
  non_negative_int32, load_max_age, choose_key_source, load_key_source, check_issuer, load_issuer,
  resolve_endpoint, non_negative_duration, load_database, load_oidc, load,
}
use id_core.Config.Bounds.{IsUsable, load_database-IsUsable}
use id_core.Config.Keys.{OneSource, choose_key_source_iff}
use id_core.Config.Valid.{IsValid, load-IsValid}

unfoldable pub lookup : List (Bytes × Bytes) → Bytes → Option Bytes
lookup [] k = none
lookup ((j, v) ∷ vars) k = if bytes_eq j k then some v else lookup vars k

unfoldable pub environ : Environ
environ key =
    lookup
      ((bytes "CORE_ENV", bytes "dev")
        ∷ (bytes "CORE_PORT", bytes "9000")
        ∷ (bytes "CORE_DB_HOST", bytes "db")
        ∷ (bytes "CORE_DB_PORT", bytes "5432")
        ∷ (bytes "CORE_DB_USER", bytes "u")
        ∷ (bytes "CORE_DB_PASSWORD", bytes "p")
        ∷ (bytes "CORE_DB_NAME", bytes "n")
        ∷ (bytes "CORE_OIDC_ISSUER", bytes "https://id.example/")
        ∷ (bytes "CORE_OIDC_DEV_GENERATE_KEY", bytes "1")
        ∷ [])
      (bytes key)

-- One slash between the two.
abbrev join : Bytes → Bytes → Bytes
join issuer [] = issuer
join issuer (a ∷ path) = if a == b'/' then issuer ++ a ∷ path else issuer ++ b'/' ∷ a ∷ path

-- Every text parses as one https URL, and no text is a duration.
abbrev pub library : Library
library = record {
  parse_url = λ s. some (record { scheme = bytes "https"; host = bytes "id.example" });
  join_path = join;
  parse_duration = λ s. none;
}

abbrev database : DatabaseConfig
database = record {
  host = bytes "db";
  port = 5432;
  user = bytes "u";
  password = bytes "p";
  db_name = bytes "n";
  ssl_mode = bytes "disable";
  max_conns = 10;
  min_conns = 1;
  max_conn_lifetime = 300000000000;
  max_conn_idle_time = 120000000000;
  health_check_period = 30000000000;
}

abbrev pub config : Config
config = record {
  env = dev;
  port = 9000;
  database = database;
  oidc = record {
    issuer = bytes "https://id.example";
    key_file = [];
    dev_generate_key = true;
    key_id = [];
    jwks_max_age = 300;
    discovery_max_age = 0;
    authorization_endpoint = bytes "https://id.example/authorize";
    token_endpoint = bytes "https://id.example/token";
    user_info_endpoint = bytes "https://id.example/userinfo";
    jwks_uri = bytes "https://id.example/jwks";
  };
}

pub loaded : load library environ ≡ ok config
unfolding load load_env load_port load_database required_string environ lookup bytes_eq
    required_port read_integer atoi parse_int parse_magnitude parse_uint parse_digits in_range
    read_int32 load_ssl_mode positive_int32 non_negative_int32 non_negative_duration load_issuer
    check_issuer is_empty trim_right choose_key_source load_key_source load_max_age load_oidc
    resolve_endpoint
loaded = refl

load-IsValid_example : IsValid library environ config
load-IsValid_example = load-IsValid library environ config loaded

database_loaded : load_database library environ ≡ ok database
unfolding load_database required_string environ lookup bytes_eq required_port read_integer atoi
    parse_int parse_magnitude parse_uint parse_digits in_range read_int32 load_ssl_mode
    positive_int32 non_negative_int32 non_negative_duration
database_loaded = refl

load_database-IsUsable_example : IsUsable database
load_database-IsUsable_example = load_database-IsUsable library environ database database_loaded

issuer_loaded : load_issuer library environ dev ≡ ok (bytes "https://id.example")
unfolding environ lookup bytes_eq load_issuer check_issuer is_empty trim_right
issuer_loaded = refl

port_set : environ "CORE_PORT" ≡ some (decimal 9000)
unfolding environ lookup bytes_eq decimal
port_set = refl

abbrev generated : Bytes × Bool
generated = ([], true)

choose_key_source_iff_example :
    (choose_key_source dev [] true ≡ ok generated)
    ↔ (OneSource dev [] true × (generated ≡ generated))
choose_key_source_iff_example = choose_key_source_iff dev [] true generated

-- ===== src/Config/Bounds.antt =====
-- The database part of a loaded configuration.
use id_core.Prelude.{
  ℕ, ◌≤◌, ◌<◌, ◌^◌, Bool, true, false, Option, none, some, List, [], ◌∷◌, String, ◌≡◌, refl, subst,
  ◌≢◌, arith, ltb, if◌then◌else◌, ok, err, >>=-Yields, reject_if-Yields, ok-injective, ok-Yields,
}
use id_core.Go.Bytes.{Bytes, bytes, bytes_eq}
use id_core.Config.{
  Environ, Library, ConfigError, DatabaseConfig, valid_ssl_modes, contains, non_empty, read_integer,
  or_missing,
}
use id_core.Config.Load.{
  read_ssl_mode, required_string, required_port, load_ssl_mode, positive_int32, non_negative_int32,
  non_negative_duration, load_database,
}
use id_core.Config.Numbers.{read_integer_bounds, read_int32_bounds, or_default_keeps}

required-bounds :
    (raw : Option Bytes) (key : String) (n : ℕ)
    → or_missing raw key (read_integer key 1 65535) ≡ ok n
    → (1 ≤ n) × (n ≤ 65535)
required-bounds none key n h = cc
required-bounds (some s) key n h = read_integer_bounds key 1 65535 s n h

required_port_bounds :
    (e : Environ) (key : String) (n : ℕ) → required_port e key ≡ ok n → (1 ≤ n) × (n ≤ 65535)
unfolding required_port
required_port_bounds e key n h = required-bounds (non_empty (e key)) key n h

required-ne-nil :
    (raw : Option Bytes) (key : String) (s : Bytes)
    → or_missing (non_empty raw) key (λ v. ok v) ≡ ok s
    → s ≢ []
required-ne-nil none key s h = cc
required-ne-nil (some []) key s h = cc
required-ne-nil (some (c ∷ t)) key s h = ground arith

required_string-ne-nil :
    (e : Environ) (key : String) (s : Bytes) → required_string e key ≡ ok s → s ≢ []
unfolding required_string
required_string-ne-nil e key s h = required-ne-nil (e key) key s h

accepted :
    {A : Type 0} (b : Bool) (r s : A) (x : ConfigError)
    → (if b then ok r else err x) ≡ ok s
    → (b ≡ true) × (r ≡ s)
accepted true r s x h = (refl, ok-injective h)
accepted false r s x h = cc

accepted-contains :
    (modes : List Bytes) (r s : Bytes) (x : ConfigError)
    → (if contains modes r then ok r else err x) ≡ ok s
    → contains modes s ≡ true
accepted-contains modes r s x h =
    let (found, same) = accepted (contains modes r) r s x h in
    subst (λ m. contains modes m ≡ true) same found

read_ssl_mode-contains :
    (raw : Option Bytes) (s : Bytes) → read_ssl_mode raw ≡ ok s → contains valid_ssl_modes s ≡ true
read_ssl_mode-contains none s h =
    subst (λ m. contains valid_ssl_modes m ≡ true) (ok-injective h) is_listed
  where
    is_listed : contains valid_ssl_modes (bytes "disable") ≡ true
    is_listed = unfold bytes_eq in refl
read_ssl_mode-contains (some r) s h = accepted-contains valid_ssl_modes r s _ h

load_ssl_mode-contains :
    (e : Environ) (s : Bytes) → load_ssl_mode e ≡ ok s → contains valid_ssl_modes s ≡ true
unfolding load_ssl_mode
load_ssl_mode-contains e s h = read_ssl_mode-contains (non_empty (e "CORE_DB_SSLMODE")) s h

positive_int32_bounds :
    (e : Environ) (key : String) (def n : ℕ)
    → 1 ≤ def
    → def < 2 ^ 31
    → positive_int32 e key def ≡ ok n
    → (1 ≤ n) × (n < 2 ^ 31)
unfolding positive_int32
positive_int32_bounds e key def n lo hi h =
    or_default_keeps (λ n. (1 ≤ n) × (n < 2 ^ 31)) (non_empty (e key)) def _ n (lo, hi)
      (λ s. read_int32_bounds key 1 s n) h

-- What a loaded database configuration satisfies.
pub record IsUsable (d : DatabaseConfig) : Type 0 where
  pub host : d.host ≢ []
  pub user : d.user ≢ []
  pub password : d.password ≢ []
  pub db_name : d.db_name ≢ []
  pub port_from : 1 ≤ d.port
  pub port_to : d.port ≤ 65535
  pub ssl_mode : contains valid_ssl_modes d.ssl_mode ≡ true
  pub pool : 1 ≤ d.max_conns
  pub pool_type : d.max_conns < 2 ^ 31
  pub pool_order : d.min_conns ≤ d.max_conns

-- Every accepted database configuration has a host, a user, a password, a name, a TCP port, an SSL
-- mode of the list, and a pool of at least one and less than 2^31 connections whose minimum is at
-- most its maximum.
pub load_database-IsUsable :
    (lib : Library) (e : Environ) (d : DatabaseConfig) → load_database lib e ≡ ok d → IsUsable d
unfolding load_database
load_database-IsUsable lib e =
    >>=-Yields IsUsable (required_string e "CORE_DB_HOST") _ λ host host_ok.
      >>=-Yields IsUsable (required_port e "CORE_DB_PORT") _ λ port port_ok.
        >>=-Yields IsUsable (required_string e "CORE_DB_USER") _ λ user user_ok.
          >>=-Yields IsUsable (required_string e "CORE_DB_PASSWORD") _ λ password password_ok.
            >>=-Yields IsUsable (required_string e "CORE_DB_NAME") _ λ name name_ok.
              >>=-Yields IsUsable (load_ssl_mode e) _ λ mode mode_ok.
                >>=-Yields IsUsable (positive_int32 e "CORE_DB_POOL_MAX_CONNS" 10) _ λ most most_ok.
                  >>=-Yields IsUsable (non_negative_int32 e "CORE_DB_POOL_MIN_CONNS" 1) _ λ least _.
                    reject_if-Yields IsUsable (ltb most least) _ _ λ order.
                      >>=-Yields IsUsable
                        (non_negative_duration lib e "CORE_DB_POOL_MAX_CONN_LIFETIME" _) _
                        λ _ _.
                          >>=-Yields IsUsable
                            (non_negative_duration lib e "CORE_DB_POOL_MAX_CONN_IDLE_TIME" _) _
                            λ _ _.
                              >>=-Yields IsUsable
                                (non_negative_duration lib e "CORE_DB_POOL_HEALTH_CHECK_PERIOD" _) _
                                λ _ _. ok-Yields IsUsable _ (record {
                                  host = required_string-ne-nil e _ host host_ok;
                                  user = required_string-ne-nil e _ user user_ok;
                                  password = required_string-ne-nil e _ password password_ok;
                                  db_name = required_string-ne-nil e _ name name_ok;
                                  port_from = (required_port_bounds e _ port port_ok).0;
                                  port_to = (required_port_bounds e _ port port_ok).1;
                                  ssl_mode = load_ssl_mode-contains e mode mode_ok;
                                  pool =
                                      (positive_int32_bounds e _ 10 most (omega arith) (omega arith)
                                        most_ok).0;
                                  pool_type =
                                      (positive_int32_bounds e _ 10 most (omega arith) (omega arith)
                                        most_ok).1;
                                  pool_order = ground arith;
                                })

-- ===== src/Config/Valid.antt =====
-- The configuration that Load of core/internal/config/config.go returns.
use id_core.Prelude.{Bool, ◌≤◌, ◌≡◌, subst, arith, ok, Yields, >>=-Yields, ok-Yields, sym}
use id_core.Go.Bytes.{Bytes, bytes}
use id_core.Config.{Environ, Library, EnvName, OidcConfig, Config, or_empty, non_empty}
use id_core.Config.Load.{
  load_env, load_port, load_database, load_issuer, load_key_source, load_max_age, resolve_endpoint,
  load_oidc, load, read_generate_flag,
}
use id_core.Config.Numbers.{load_port_bounds, load_max_age_bounds}
use id_core.Config.Bounds.{IsUsable, load_database-IsUsable}
use id_core.Config.Keys.{OneSource, choose_key_source_iff}
use id_core.Config.Issuer.{
  HasValue, IsIssuer, load_issuer-IsIssuer, IsEndpoint, resolve_endpoint-IsEndpoint,
}

-- What holds of the OpenID Connect part.
pub record IsProvider (lib : Library) (e : Environ) (env : EnvName) (c : OidcConfig) : Type 0 where
  pub issuer : (raw : Bytes) × HasValue e "CORE_OIDC_ISSUER" raw × IsIssuer lib env raw c.issuer
  pub one_source : OneSource env c.key_file c.dev_generate_key
  pub jwks_max_age : c.jwks_max_age ≤ 86400
  pub discovery_max_age : c.discovery_max_age ≤ 86400
  pub authorization :
      IsEndpoint lib e c.issuer "CORE_OIDC_AUTHORIZATION_ENDPOINT"
        (bytes "/authorize")
        c.authorization_endpoint
  pub token : IsEndpoint lib e c.issuer "CORE_OIDC_TOKEN_ENDPOINT" (bytes "/token") c.token_endpoint
  pub user_info :
      IsEndpoint lib e c.issuer "CORE_OIDC_USERINFO_ENDPOINT"
        (bytes "/userinfo")
        c.user_info_endpoint
  pub jwks_uri : IsEndpoint lib e c.issuer "CORE_OIDC_JWKS_URI" (bytes "/jwks") c.jwks_uri

load_key_source-OneSource :
    (e : Environ) (env : EnvName) → Yields (λ k. OneSource env k.0 k.1) (load_key_source e env)
unfolding load_key_source
load_key_source-OneSource e env =
    let P : Bytes × Bool → Type 0 = λ k. OneSource env k.0 k.1 in
    >>=-Yields P (read_generate_flag (non_empty (e "CORE_OIDC_DEV_GENERATE_KEY"))) _ λ gen _ k h.
      let (one, same) = (choose_key_source_iff env (or_empty (e "CORE_OIDC_KEY_FILE")) gen k).0 h in
      subst P (sym same) one

load_oidc-IsProvider :
    (lib : Library) (e : Environ) (env : EnvName)
    → Yields (IsProvider lib e env) (load_oidc lib e env)
unfolding load_oidc
load_oidc-IsProvider lib e env =
    let P = IsProvider lib e env in
    >>=-Yields P (load_issuer lib e env) _ λ issuer issuer_ok.
      >>=-Yields P (load_key_source e env) _ λ key key_ok.
        >>=-Yields P (load_max_age e "CORE_OIDC_JWKS_MAX_AGE" 300) _ λ jwks_age jwks_age_ok.
          >>=-Yields P (load_max_age e "CORE_OIDC_DISCOVERY_MAX_AGE" 0) _ λ age age_ok.
            >>=-Yields P (resolve_endpoint lib e issuer "CORE_OIDC_AUTHORIZATION_ENDPOINT" _) _
              λ auth auth_ok.
                >>=-Yields P (resolve_endpoint lib e issuer "CORE_OIDC_TOKEN_ENDPOINT" _) _
                  λ token token_ok.
                    >>=-Yields P (resolve_endpoint lib e issuer "CORE_OIDC_USERINFO_ENDPOINT" _) _
                      λ info info_ok.
                        >>=-Yields P (resolve_endpoint lib e issuer "CORE_OIDC_JWKS_URI" _) _
                          λ jwks jwks_ok. ok-Yields P _ (record {
                            issuer = load_issuer-IsIssuer lib e env issuer issuer_ok;
                            one_source = load_key_source-OneSource e env key key_ok;
                            jwks_max_age =
                                load_max_age_bounds e _ 300 jwks_age (omega arith) jwks_age_ok;
                            discovery_max_age = load_max_age_bounds e _ 0 age (omega arith) age_ok;
                            authorization =
                                resolve_endpoint-IsEndpoint lib e issuer _ _ auth auth_ok;
                            token = resolve_endpoint-IsEndpoint lib e issuer _ _ token token_ok;
                            user_info = resolve_endpoint-IsEndpoint lib e issuer _ _ info info_ok;
                            jwks_uri = resolve_endpoint-IsEndpoint lib e issuer _ _ jwks jwks_ok;
                          })

-- What holds of a configuration that has been loaded.
pub record IsValid (lib : Library) (e : Environ) (c : Config) : Type 0 where
  pub env : load_env e ≡ ok c.env
  pub port_from : 1 ≤ c.port
  pub port_to : c.port ≤ 65535
  pub database : IsUsable c.database
  pub oidc : IsProvider lib e c.env c.oidc

-- Every configuration that Load returns is valid: a known environment, a TCP port, a usable
-- database configuration, and a provider with a checked issuer, exactly one source of the signing
-- key (the file in production), cache times of at most a day, and each endpoint either an absolute
-- URL of the environment or the issuer joined with the default path.
pub load-IsValid : (lib : Library) (e : Environ) (c : Config) → load lib e ≡ ok c → IsValid lib e c
unfolding load
load-IsValid lib e =
    let P = IsValid lib e in
    >>=-Yields P (load_env e) _ λ env env_ok. >>=-Yields P (load_port e) _ λ port port_ok.
      >>=-Yields P (load_database lib e) _ λ database database_ok.
        >>=-Yields P (load_oidc lib e env) _ λ oidc oidc_ok. ok-Yields P _ (record {
          env = env_ok;
          port_from = (load_port_bounds e port port_ok).0;
          port_to = (load_port_bounds e port port_ok).1;
          database = load_database-IsUsable lib e database database_ok;
          oidc = load_oidc-IsProvider lib e env oidc oidc_ok;
        })

-- ===== src/Config/Issuer.antt =====
-- What loadIssuer and resolveEndpoint of core/internal/config/config.go accept.
use id_core.Prelude.{
  Bool, true, false, not, ◌&&◌, Option, none, some, [], String, ◌≡◌, ◌≢◌, ◌⊎◌, refl, subst, inl,
  inr, if◌then◌else◌, ok, err, Yields, reject_if-Yields, ok-injective, ok-Yields,
}
use id_core.Go.Bytes.{Bytes, bytes, bytes_eq, bytes_eq_sound, is_empty, is_empty-false}
use id_core.Go.Split.{trim_right}
use id_core.Go.Split.Trim.{last_byte, trim_right-last_byte}
use id_core.Config.{
  Environ, ParsedUrl, Library, EnvName, prod, staging, dev, ConfigError, Loaded, non_empty,
  or_missing,
}
use id_core.Config.Load.{
  is_dev, is_absolute, check_issuer, parse_issuer, load_issuer, built_endpoint, override_endpoint,
  resolve_endpoint,
}

-- The issuer `s` comes from the text `raw`, which parses as `u`.
pub record IsIssuer (lib : Library) (env : EnvName) (raw : Bytes) (s : Bytes) : Type 0 where
  pub u : ParsedUrl
  pub parsed : lib.parse_url raw ≡ some u
  pub scheme : (u.scheme ≡ bytes "https") ⊎ ((u.scheme ≡ bytes "http") × (env ≡ dev))
  pub host : u.host ≢ []
  pub trimmed : s ≡ trim_right raw b'/'
  pub no_slash : last_byte s ≢ some b'/'

is_dev_sound : (env : EnvName) → is_dev env ≡ true → env ≡ dev
is_dev_sound prod h = cc
is_dev_sound staging h = cc
is_dev_sound dev h = refl

scheme_cases :
    (https http d : Bool)
    → (not https && not http) ≡ false
    → (http && not d) ≡ false
    → (https ≡ true) ⊎ ((http ≡ true) × (d ≡ true))
scheme_cases true http d h k = inl refl
scheme_cases false true true h k = inr (refl, refl)
scheme_cases false true false h k = cc
scheme_cases false false d h k = cc

accepted_scheme :
    (env : EnvName) (s : Bytes)
    → (not (bytes_eq s (bytes "https")) && not (bytes_eq s (bytes "http"))) ≡ false
    → (bytes_eq s (bytes "http") && not (is_dev env)) ≡ false
    → (s ≡ bytes "https") ⊎ ((s ≡ bytes "http") × (env ≡ dev))
accepted_scheme env s h k =
    elim (scheme_cases (bytes_eq s (bytes "https")) (bytes_eq s (bytes "http")) (is_dev env) h k) [
      | inl tls ↦ inl (bytes_eq_sound s (bytes "https") tls)
      | inr (plain, is) ↦ inr (bytes_eq_sound s (bytes "http") plain, is_dev_sound env is)
    ]

check_issuer-IsIssuer :
    (lib : Library) (env : EnvName) (raw : Bytes) (u : ParsedUrl)
    → lib.parse_url raw ≡ some u
    → Yields (IsIssuer lib env raw) (check_issuer env raw u)
unfolding check_issuer
check_issuer-IsIssuer lib env raw u parsed =
    let P = IsIssuer lib env raw in
    reject_if-Yields P _ _ _ λ known. reject_if-Yields P _ _ _ λ secure.
      reject_if-Yields P (is_empty u.host) _ _ λ named. ok-Yields P _ (record {
        u = u;
        parsed = parsed;
        scheme = accepted_scheme env u.scheme known secure;
        host = is_empty-false u.host named;
        trimmed = refl;
        no_slash = trim_right-last_byte raw b'/';
      })

parse_issuer-IsIssuer :
    (lib : Library) (env : EnvName) (raw : Bytes) (parsed : Option ParsedUrl)
    → lib.parse_url raw ≡ parsed
    → Yields (IsIssuer lib env raw) (parse_issuer lib env raw parsed)
parse_issuer-IsIssuer lib env raw none e s h = cc
parse_issuer-IsIssuer lib env raw (some u) e s h = check_issuer-IsIssuer lib env raw u e s h

or_missing-Yields :
    {A : Type 0} (P : A → Type 0) (raw : Option Bytes) (key : String) (read : Bytes → Loaded A)
    → ((r : Bytes) → raw ≡ some r → Yields P (read r))
    → Yields P (or_missing raw key read)
or_missing-Yields P none key read h a e = cc
or_missing-Yields P (some r) key read h a e = h r refl a e

-- The value of a variable that is set and not empty.
abbrev pub HasValue : Environ → String → Bytes → Type 0
HasValue e key raw = non_empty (e key) ≡ some raw

-- Every accepted issuer is the value of CORE_OIDC_ISSUER without its trailing slashes; that value
-- parses as a URL with a host and the scheme https, or http in the dev environment only.
pub load_issuer-IsIssuer :
    (lib : Library) (e : Environ) (env : EnvName) (s : Bytes)
    → load_issuer lib e env ≡ ok s
    → (raw : Bytes) × HasValue e "CORE_OIDC_ISSUER" raw × IsIssuer lib env raw s
unfolding load_issuer
load_issuer-IsIssuer lib e env =
    or_missing-Yields
      (λ s. (raw : Bytes) × HasValue e "CORE_OIDC_ISSUER" raw × IsIssuer lib env raw s)
      (non_empty (e "CORE_OIDC_ISSUER")) "CORE_OIDC_ISSUER" _
      λ raw set s h. (raw, set, parse_issuer-IsIssuer lib env raw (lib.parse_url raw) refl s h)

-- Where an endpoint comes from: an absolute URL of the environment as it stands, or the issuer
-- and the default path.
abbrev pub IsEndpoint : Library → Environ → Bytes → String → Bytes → Bytes → Type 0
IsEndpoint lib e issuer key path s =
    (HasValue e key s × (is_absolute (lib.parse_url s) ≡ true))
    ⊎ ((non_empty (e key) ≡ none) × (s ≡ lib.join_path issuer path))

pub resolve_endpoint-IsEndpoint :
    (lib : Library) (e : Environ) (issuer : Bytes) (key : String) (path : Bytes)
    → Yields (IsEndpoint lib e issuer key path) (resolve_endpoint lib e issuer key path)
unfolding resolve_endpoint
resolve_endpoint-IsEndpoint lib e issuer key path = from (non_empty (e key)) refl
  where
    built :
        (parsed : Option ParsedUrl) (s : Bytes)
        → built_endpoint lib issuer path parsed ≡ ok s
        → s ≡ lib.join_path issuer path
    built none s h = cc
    built (some u) s h = cc

    accepted :
        (b : Bool) (r : Bytes) (x : ConfigError) (s : Bytes)
        → (if b then ok r else err x) ≡ ok s
        → (b ≡ true) × (r ≡ s)
    accepted true r x s h = (refl, ok-injective h)
    accepted false r x s h = cc

    from :
        (raw : Option Bytes)
        → non_empty (e key) ≡ raw
        → Yields (IsEndpoint lib e issuer key path) (override_endpoint lib issuer key path raw)
    from none unset s h = inr (unset, built (lib.parse_url issuer) s h)
    from (some r) set s h =
        let (absolute, same) = accepted (is_absolute (lib.parse_url r)) r _ s h in
        inl (
          subst (λ t. HasValue e key t × (is_absolute (lib.parse_url t) ≡ true)) same
            (set, absolute))

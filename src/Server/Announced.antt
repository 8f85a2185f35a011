-- ===== src/Server/Announced.antt =====
-- The endpoints that the metadata announce, and the routes of the server.
use id_core.Prelude.{
  String, false, Option, none, some, List, [], ◌∷◌, ◌++◌, ◌≡◌, ◌≢◌, ◌≤◌, All, arith, refl, sym, ap,
  ◌∙◌, subst, inl, inr, Result, ok, err,
}
use id_core.Go.Bytes.{Bytes, bytes, bytes_eq}
use id_core.Config.{Environ, Library, OidcConfig, Config, non_empty}
use id_core.Config.Load.{load}
use id_core.Config.Issuer.{IsEndpoint}
use id_core.Config.Valid.{IsProvider, load-IsValid}
use id_core.Health.{PingError}
use id_core.Keystore.{Crypto, KeySet}
use id_core.Oidc.Discovery.{DiscoveryHandler, build, marshal, new_discovery}
use id_core.Oidc.Jwks.{Jwx, JwksError, JwksHandler, new_jwks}
use id_core.Server.Paths.{IsAbsolute, path_of, path_of-append}
use id_core.Server.{
  Endpoint, discovery, jwks, stub, Route, has_method, dispatch, HttpServer, panicked, failed, built,
  server_routes, with_jwks, new_server,
}

-- The URL is the issuer and a path, to which the routes answer the method by such an endpoint, whatever
-- the database says. The path is what is left of the path of the URL once that of the issuer is taken
-- off its front: for an issuer without a path it is the path of the URL itself, and for one with a
-- path (https://example.com/id-core) the proxy in front of the server takes it off.
abbrev pub IsServed : List Route → Bytes → Bytes → Bytes → (Endpoint → Type 0) → Type 0
IsServed routes issuer method url P =
    (path : Bytes) × (url ≡ issuer ++ path)
    × (path_of url ≡ path_of issuer ++ path)
    × ((ping : Option PingError) → P (dispatch routes ping method path))

-- A path of one name in lower case letters.
abbrev pub IsName : Bytes → Type 0
IsName name = (name ≢ []) × All (λ a. (97 ≤ a) × (a ≤ 122)) name

-- URL.JoinPath for an issuer that is as net/url prints it, without a query and a fragment, with a path
-- that is empty or clean and without a slash at its end: a path of one name goes to its end.
abbrev pub Joins : Library → Bytes → Type 0
Joins lib issuer =
    (name : Bytes) → IsName name → lib.join_path issuer (b'/' ∷ name) ≡ issuer ++ b'/' ∷ name

module _ (c : Crypto) (x : Jwx c.PublicKey) (base64_url : Bytes → Bytes) where
  -- What the metadata of a configuration announce, and the metadata themselves.
  pub record IsAnnounced (cfg : OidcConfig) (ks : KeySet c) (routes : List Route) : Type 0 where
    pub metadata :
        IsServed routes
          (build cfg).issuer
          (bytes "GET")
          ((build cfg).issuer ++ bytes "/.well-known/openid-configuration")
          (λ e. (h : DiscoveryHandler) × (e ≡ discovery h) × (h.body ≡ marshal (build cfg)))
    pub jwks_uri : IsServed routes (build cfg).issuer (bytes "GET") (build cfg).jwks_uri (λ e.
        (h : JwksHandler) × (e ≡ jwks h)
        × (new_jwks c x base64_url (some ks) cfg.jwks_max_age ≡ ok h))
    pub authorization :
        IsServed routes
          (build cfg).issuer
          (bytes "GET")
          (build cfg).authorization_endpoint
          (λ e. e ≡ stub (bytes "M1.2"))
    pub token :
        IsServed routes
          (build cfg).issuer
          (bytes "POST")
          (build cfg).token_endpoint
          (λ e. e ≡ stub (bytes "M1.3"))
    pub userinfo :
        IsServed routes
          (build cfg).issuer
          (bytes "GET")
          (build cfg).userinfo_endpoint
          (λ e. e ≡ stub (bytes "M1.4"))

  below :
      (lib : Library) (e : Environ) (issuer : Bytes) (key : String) (name url : Bytes)
      → Joins lib issuer
      → IsName name
      → non_empty (e key) ≡ none
      → IsEndpoint lib e issuer key (b'/' ∷ name) url
      → url ≡ issuer ++ b'/' ∷ name
  below lib e issuer key name url joins is unset (inl (set, absolute)) = cc
  below lib e issuer key name url joins is unset (inr (same, joined)) = joined ∙ joins name is

  -- An endpoint with its default path is served.
  served :
      (routes : List Route) (lib : Library) (e : Environ) (issuer : Bytes) (key : String)
      (method name url : Bytes) (P : Endpoint → Type 0)
      → Joins lib issuer
      → IsAbsolute issuer
      → IsName name
      → non_empty (e key) ≡ none
      → IsEndpoint lib e issuer key (b'/' ∷ name) url
      → ((ping : Option PingError) → P (dispatch routes ping method (b'/' ∷ name)))
      → IsServed routes issuer method url P
  served routes lib e issuer key method name url P joins absolute is unset endpoint answers =
      let same = below lib e issuer key name url joins is unset endpoint in
      (b'/' ∷ name, same, ap path_of same ∙ path_of-append issuer name absolute, answers)

  routes-IsAnnounced :
      (lib : Library) (e : Environ) (cfg : Config) (ks : KeySet c) (h : JwksHandler)
      → IsProvider lib e cfg.env cfg.oidc
      → Joins lib cfg.oidc.issuer
      → IsAbsolute cfg.oidc.issuer
      → non_empty (e "CORE_OIDC_AUTHORIZATION_ENDPOINT") ≡ none
      → non_empty (e "CORE_OIDC_TOKEN_ENDPOINT") ≡ none
      → non_empty (e "CORE_OIDC_USERINFO_ENDPOINT") ≡ none
      → non_empty (e "CORE_OIDC_JWKS_URI") ≡ none
      → new_jwks c x base64_url (some ks) cfg.oidc.jwks_max_age ≡ ok h
      → IsAnnounced cfg.oidc ks (server_routes (new_discovery c.sha256 base64_url cfg.oidc) h)
  unfolding dispatch server_routes bytes_eq has_method new_discovery build
  routes-IsAnnounced lib e cfg ks h p joins absolute no_auth no_token no_info no_jwks made =
      let issuer = cfg.oidc.issuer in
      let routes = server_routes (new_discovery c.sha256 base64_url cfg.oidc) h in
      record {
        metadata = (
          bytes "/.well-known/openid-configuration",
          refl,
          path_of-append issuer (bytes ".well-known/openid-configuration") absolute,
          λ ping. (new_discovery c.sha256 base64_url cfg.oidc, refl, refl),
        );
        jwks_uri =
            served routes lib e issuer _ (bytes "GET") (bytes "jwks") _
              (λ v.
                (k : JwksHandler) × (v ≡ jwks k)
                × (new_jwks c x base64_url (some ks) cfg.oidc.jwks_max_age ≡ ok k))
              joins absolute (ground arith) no_jwks p.jwks_uri (λ ping. (h, refl, made));
        authorization =
            served routes lib e issuer _ (bytes "GET") (bytes "authorize") _
              (λ v. v ≡ stub (bytes "M1.2")) joins absolute (ground arith) no_auth p.authorization
              (λ ping. refl);
        token =
            served routes lib e issuer _ (bytes "POST") (bytes "token") _
              (λ v. v ≡ stub (bytes "M1.3")) joins absolute (ground arith) no_token p.token
              (λ ping. refl);
        userinfo =
            served routes lib e issuer _ (bytes "GET") (bytes "userinfo") _
              (λ v. v ≡ stub (bytes "M1.4")) joins absolute (ground arith) no_info p.user_info
              (λ ping. refl);
      }

  built_from :
      (cfg : Config) (server : HttpServer) (r : Result JwksError JwksHandler)
      → with_jwks c x base64_url cfg r ≡ built server
      → (h : JwksHandler) × (r ≡ ok h)
        × (server.routes ≡ server_routes (new_discovery c.sha256 base64_url cfg.oidc) h)
  built_from cfg server (err e) made = cc
  built_from cfg server (ok h) made = (
    h,
    refl,
    sym (ap (λ n. elim n [ panicked _ ↦ [] | failed _ ↦ [] | built s ↦ s.routes ]) made),
  )

-- What the metadata of a loaded configuration announce is there: the server that is built for it has,
-- at the path that each announced URL has below the issuer, the handler made of the key set, the three
-- stubs, and the metadata themselves, each under its method. For an issuer without a path, that is the
-- path of the announced URL itself; the path of an issuer that has one is taken off before the server.
-- It supposes that the environment sets none of the four endpoints, that the issuer is `scheme://` and
-- a rest, and that URL.JoinPath puts a path of one name to the end of the issuer.
pub load-IsAnnounced :
    (lib : Library) (e : Environ) (cfg : Config)
    → load lib e ≡ ok cfg
    → Joins lib cfg.oidc.issuer
    → IsAbsolute cfg.oidc.issuer
    → non_empty (e "CORE_OIDC_AUTHORIZATION_ENDPOINT") ≡ none
    → non_empty (e "CORE_OIDC_TOKEN_ENDPOINT") ≡ none
    → non_empty (e "CORE_OIDC_USERINFO_ENDPOINT") ≡ none
    → non_empty (e "CORE_OIDC_JWKS_URI") ≡ none
    → (c : Crypto) (x : Jwx c.PublicKey) (base64_url : Bytes → Bytes) (ks : KeySet c)
      (server : HttpServer)
    → new_server c x base64_url cfg false false (some ks) ≡ built server
    → IsAnnounced c x base64_url cfg.oidc ks server.routes
unfolding new_server
load-IsAnnounced lib e cfg loaded joins absolute no_auth no_token no_info no_jwks c x base64_url ks
      server made =
    let (h, keys, routes) = built_from c x base64_url cfg server _ made in
    subst (IsAnnounced c x base64_url cfg.oidc ks) (sym routes) (
      routes-IsAnnounced c x base64_url lib e cfg ks h (load-IsValid lib e cfg loaded).oidc joins
        absolute no_auth no_token no_info no_jwks keys)

-- ===== src/Server.antt =====
-- core/internal/server/server.go: the routes and their handlers. The choice of a route is that of
-- http.ServeMux for a path that is in its canonical form, which it redirects to otherwise.
pub mod AccessLines
pub mod Paths
pub mod Announced
use id_core.Prelude.{
  ℕ, Bool, true, false, Option, none, some, List, [], ◌∷◌, ◌++◌, ◌&&◌, ◌||◌, if◌then◌else◌, Result,
  ok, err,
}
use id_core.Go.Bytes.{Bytes, bytes, bytes_eq}
use id_core.Go.Strconv.{decimal}
use id_core.Http.{Request, Program, done, set_header, write_header, write, Url, Handler, serve}
use id_core.Config.{Config}
use id_core.Health.{PingError, health_handler, live_handler, ready_handler}
use id_core.Keystore.{Crypto, KeySet}
use id_core.Oidc.NotImpl.{not_implemented}
use id_core.Oidc.Discovery.{DiscoveryHandler, serve_http, new_discovery}
use id_core.Oidc.Jwks.{Jwx, JwksError, JwksHandler, new_jwks, serve_jwks}
use id_core.Middleware.Chain.{Runtime, wrap}

-- The handlers behind the routes of the server, and the two replies of ServeMux itself: no route has
-- the path, or none of those that have it has the method (with the methods that it has).
pub data Endpoint : Type 0 where
  health live : Endpoint
  ready : Option PingError → Endpoint
  discovery : DiscoveryHandler → Endpoint
  jwks : JwksHandler → Endpoint
  stub : Bytes → Endpoint
  not_found : Endpoint
  method_not_allowed : Bytes → Endpoint

-- http.Error on a response without a body.
abbrev pub error_reply : Bytes → ℕ → Program
error_reply message code = set_header (bytes "Content-Type") (bytes "text/plain; charset=utf-8") (
    set_header (bytes "X-Content-Type-Options") (bytes "nosniff")
      (write_header code (write (message ++ 10 ∷ []) (λ _. done))))

unfoldable pub endpoint_handler : Endpoint → Request → Program
endpoint_handler health = health_handler
endpoint_handler live = live_handler
endpoint_handler (ready ping) = ready_handler ping
endpoint_handler (discovery h) = serve_http h
endpoint_handler (jwks h) = serve_jwks h
endpoint_handler (stub milestone) = not_implemented milestone
endpoint_handler not_found = λ r. error_reply (bytes "404 page not found") 404
endpoint_handler (method_not_allowed allow) =
    λ r. set_header (bytes "Allow") allow (error_reply (bytes "Method Not Allowed") 405)

-- A pattern of HandleFunc; the endpoint may depend on what the Ping of this request gives.
pub record Route : Type 0 where
  pub method : Bytes
  pub path : Bytes
  pub endpoint : Option PingError → Endpoint

-- A pattern with GET has HEAD too.
unfoldable pub has_method : Bytes → Bytes → Bool
unfolding bytes_eq
has_method pattern method =
    bytes_eq pattern method || (bytes_eq pattern (bytes "GET") && bytes_eq method (bytes "HEAD"))

abbrev pub allowed : Bytes → Bytes
allowed method = if bytes_eq method (bytes "GET") then bytes "GET, HEAD" else method

-- No two routes of the server have one path.
unfoldable pub dispatch : List Route → Option PingError → Bytes → Bytes → Endpoint
unfolding bytes_eq has_method
dispatch [] ping method path = not_found
dispatch (route ∷ routes) ping method path =
    let rest = dispatch routes ping method path in
    if bytes_eq route.path path
    then (if has_method route.method method
        then route.endpoint ping
        else method_not_allowed (allowed route.method))
    else rest

-- A request that the server reads has a URL.
abbrev pub request_path : Option Url → Bytes
request_path none = []
request_path (some u) = u.escaped_path

-- In nanoseconds.
abbrev pub read_header_timeout : ℕ
read_header_timeout = 10000000000

-- http.Server; its handler is the chain around the routes.
pub record HttpServer : Type 0 where
  pub addr : Bytes
  pub routes : List Route
  pub read_header_timeout : ℕ

-- New panics on a nil argument.
pub data NewServer : Type 0 where
  panicked : Bytes → NewServer
  failed : JwksError → NewServer
  built : HttpServer → NewServer

unfoldable pub server_routes : DiscoveryHandler → JwksHandler → List Route
server_routes discovery_handler jwks_handler =
    (record { method = bytes "GET"; path = bytes "/health"; endpoint = λ _. health })
    ∷ (record { method = bytes "GET"; path = bytes "/health/live"; endpoint = λ _. live })
    ∷ (record { method = bytes "GET"; path = bytes "/health/ready"; endpoint = ready })
    ∷ (record {
      method = bytes "GET";
      path = bytes "/.well-known/openid-configuration";
      endpoint = λ _. discovery discovery_handler;
    })
    ∷ (record { method = bytes "GET"; path = bytes "/jwks"; endpoint = λ _. jwks jwks_handler })
    ∷ (record {
      method = bytes "GET";
      path = bytes "/authorize";
      endpoint = λ _. stub (bytes "M1.2");
    })
    ∷ (record { method = bytes "POST"; path = bytes "/token"; endpoint = λ _. stub (bytes "M1.3") })
    ∷ (record {
      method = bytes "GET";
      path = bytes "/userinfo";
      endpoint = λ _. stub (bytes "M1.4");
    })
    ∷ []

-- `base64_url` is base64.RawURLEncoding.EncodeToString.
module _ (c : Crypto) (x : Jwx c.PublicKey) (base64_url : Bytes → Bytes) where
  abbrev pub with_jwks : Config → Result JwksError JwksHandler → NewServer
  with_jwks cfg (err e) = failed e
  with_jwks cfg (ok h) = built (record {
    addr = b':' ∷ decimal cfg.port;
    routes = server_routes (new_discovery c.sha256 base64_url cfg.oidc) h;
    read_header_timeout = read_header_timeout;
  })

  -- Whether the logger and the pool are nil, and the key set.
  unfoldable pub new_server : Config → Bool → Bool → Option (KeySet c) → NewServer
  new_server cfg true nil_pool ks =
      panicked (bytes "server.New: logger must not be nil (M0.2 シングルポイント設計の契約)")
  new_server cfg false true ks =
      panicked (bytes "server.New: pool must not be nil (M0.3: /health/ready が pool.Ping を要求)")
  new_server cfg false false none =
      panicked
        (bytes "server.New: keystore.KeySet must not be nil (M1.1: JWKS handler が Verifying を呼ぶ)")
  new_server cfg false false (some ks) =
      with_jwks cfg (new_jwks c x base64_url (some ks) cfg.oidc.jwks_max_age)

module _ (unicode_lower : ℕ → ℕ) (t : Runtime) where
  unfoldable pub server_handler : HttpServer → Option PingError → Handler
  unfolding wrap serve endpoint_handler dispatch
  server_handler srv ping =
      wrap unicode_lower t
        (serve (λ r. endpoint_handler (dispatch srv.routes ping r.method (request_path r.url)) r))

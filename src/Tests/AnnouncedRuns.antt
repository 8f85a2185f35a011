-- ===== src/Tests/AnnouncedRuns.antt =====
-- The server of the environment of ConfigRuns and what its metadata announce.
use id_core.Prelude.{◌≡◌, refl, ap, arith, false, none, some, ◌∷◌}
use id_core.Go.Bytes.{Bytes, bytes, bytes_eq}
use id_core.Go.Strconv.{decimal}
use id_core.Config.{non_empty}
use id_core.Oidc.Discovery.{new_discovery}
use id_core.Server.{HttpServer, built, read_header_timeout, server_routes, with_jwks, new_server}
use id_core.Server.Paths.{after_scheme, after_host, path_of, IsAbsolute}
use id_core.Server.Announced.{IsAnnounced, load-IsAnnounced}
use id_core.Tests.ConfigRuns.{lookup, library, environ, config, loaded}
use id_core.Tests.CoreRuns.{generated_set, handler, handler_made}
use id_core.Tests.Toys.{toy_crypto, toy_jwx}

abbrev same_bytes : Bytes → Bytes
same_bytes s = s

abbrev server : HttpServer
server = record {
  addr = b':' ∷ decimal 9000;
  routes = server_routes (new_discovery (λ s. s) same_bytes config.oidc) handler;
  read_header_timeout = read_header_timeout;
}

server_built :
    new_server toy_crypto toy_jwx same_bytes config false false (some generated_set) ≡ built server
unfolding new_server
server_built = ap (with_jwks toy_crypto toy_jwx same_bytes config) handler_made

unset :
    (non_empty (environ "CORE_OIDC_AUTHORIZATION_ENDPOINT") ≡ none)
    × (non_empty (environ "CORE_OIDC_TOKEN_ENDPOINT") ≡ none)
    × (non_empty (environ "CORE_OIDC_USERINFO_ENDPOINT") ≡ none)
    × (non_empty (environ "CORE_OIDC_JWKS_URI") ≡ none)
unfolding environ lookup bytes_eq
unset = (refl, refl, refl, refl)

issuer-IsAbsolute : IsAbsolute config.oidc.issuer
issuer-IsAbsolute = (bytes "https", bytes "id.example", ground arith, refl)

-- The announced URL of the keys, and the same below a path of the issuer.
keys_path : path_of config.oidc.jwks_uri ≡ bytes "/jwks"
unfolding after_host after_scheme
keys_path = refl

below_a_path : path_of (bytes "https://example.com/id-core/jwks") ≡ bytes "/id-core/jwks"
unfolding after_host after_scheme
below_a_path = refl

load-IsAnnounced_example :
    IsAnnounced toy_crypto toy_jwx same_bytes config.oidc generated_set server.routes
load-IsAnnounced_example =
    load-IsAnnounced library environ config loaded (λ name is. refl) issuer-IsAbsolute unset.0
      unset.1 unset.2 unset.3 toy_crypto toy_jwx same_bytes generated_set server server_built

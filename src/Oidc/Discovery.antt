-- ===== src/Oidc/Discovery.antt =====
-- core/internal/oidc/discovery: the metadata of the provider, its ETag and its handler.
pub mod Caching
use id_core.Prelude.{
  ℕ, Bool, Option, none, some, List, [], ◌∷◌, ◌++◌, map, take, ◌==◌, if◌then◌else◌,
}
use id_core.Go.Bytes.{Bytes, bytes, bytes_eq}
use id_core.Go.Json.{json_string, json_object, elements}
use id_core.Go.Strconv.{decimal}
use id_core.Go.Http.{get_header}
use id_core.Http.{Request, Program, done, set_header, write_header, write}
use id_core.Config.{OidcConfig}

pub record Metadata : Type 0 where
  pub issuer : Bytes
  pub authorization_endpoint : Bytes
  pub token_endpoint : Bytes
  pub userinfo_endpoint : Bytes
  pub jwks_uri : Bytes
  pub response_types_supported : List Bytes
  pub grant_types_supported : List Bytes
  pub subject_types_supported : List Bytes
  pub id_token_signing_alg_values_supported : List Bytes
  pub scopes_supported : List Bytes
  pub token_endpoint_auth_methods_supported : List Bytes

abbrev pub supported_response_types : List Bytes
supported_response_types = bytes "code" ∷ []

abbrev pub supported_grant_types : List Bytes
supported_grant_types = bytes "authorization_code" ∷ []

abbrev pub supported_subject_types : List Bytes
supported_subject_types = bytes "public" ∷ []

abbrev pub supported_id_token_signing_algs : List Bytes
supported_id_token_signing_algs = bytes "RS256" ∷ []

abbrev pub supported_scopes : List Bytes
supported_scopes = bytes "openid" ∷ []

abbrev pub supported_token_auth_methods : List Bytes
supported_token_auth_methods = bytes "client_secret_basic" ∷ []

unfoldable pub build : OidcConfig → Metadata
build cfg = record {
  issuer = cfg.issuer;
  authorization_endpoint = cfg.authorization_endpoint;
  token_endpoint = cfg.token_endpoint;
  userinfo_endpoint = cfg.user_info_endpoint;
  jwks_uri = cfg.jwks_uri;
  response_types_supported = supported_response_types;
  grant_types_supported = supported_grant_types;
  subject_types_supported = supported_subject_types;
  id_token_signing_alg_values_supported = supported_id_token_signing_algs;
  scopes_supported = supported_scopes;
  token_endpoint_auth_methods_supported = supported_token_auth_methods;
}

-- A slice of strings that is not nil.
abbrev json_strings : List Bytes → Bytes
json_strings values = b'[' ∷ (elements (map json_string values) ++ b']' ∷ [])

-- json.Marshal of the struct, which holds strings only and so has no error.
unfoldable pub marshal : Metadata → Bytes
unfolding json_string
marshal m = json_object (
    (bytes "issuer", json_string m.issuer)
    ∷ (bytes "authorization_endpoint", json_string m.authorization_endpoint)
    ∷ (bytes "token_endpoint", json_string m.token_endpoint)
    ∷ (bytes "userinfo_endpoint", json_string m.userinfo_endpoint)
    ∷ (bytes "jwks_uri", json_string m.jwks_uri)
    ∷ (bytes "response_types_supported", json_strings m.response_types_supported)
    ∷ (bytes "grant_types_supported", json_strings m.grant_types_supported)
    ∷ (bytes "subject_types_supported", json_strings m.subject_types_supported)
    ∷ (
      bytes "id_token_signing_alg_values_supported",
      json_strings m.id_token_signing_alg_values_supported,
    )
    ∷ (bytes "scopes_supported", json_strings m.scopes_supported)
    ∷ (
      bytes "token_endpoint_auth_methods_supported",
      json_strings m.token_endpoint_auth_methods_supported,
    )
    ∷ [])

abbrev pub etag_body_byte_len : ℕ
etag_body_byte_len = 16

-- Header.Set writes the canonical form of ETag.
abbrev pub header_etag : Bytes
header_etag = bytes "Etag"

abbrev pub header_if_none_match : Bytes
header_if_none_match = bytes "If-None-Match"

-- The age is not negative (Load).
unfoldable pub cache_control_value : ℕ → Bytes
cache_control_value max_age =
    if max_age == 0
    then bytes "no-cache, must-revalidate"
    else bytes "public, max-age=" ++ (decimal max_age ++ bytes ", must-revalidate")

-- Handler.
pub record DiscoveryHandler : Type 0 where
  pub body : Bytes
  pub etag : Bytes
  pub cache : Bytes

-- `sha256` is sha256.Sum256 and `base64_url` is base64.RawURLEncoding.EncodeToString.
module _ (sha256 base64_url : Bytes → Bytes) where
  unfoldable pub etag : Bytes → Bytes
  etag body = b'"' ∷ (base64_url (take etag_body_byte_len (sha256 body)) ++ b'"' ∷ [])

  unfoldable pub new_discovery : OidcConfig → DiscoveryHandler
  new_discovery cfg =
      let body = marshal (build cfg) in
      record { body = body; etag = etag body; cache = cache_control_value cfg.discovery_max_age }

-- ServeHTTP; the error of Write is dropped.
unfoldable pub serve_http : DiscoveryHandler → Request → Program
unfolding bytes_eq
serve_http h r =
    if bytes_eq (get_header header_if_none_match r.header) h.etag
    then set_header header_etag h.etag (write_header 304 done)
    else set_header (bytes "Content-Type") (bytes "application/json") (
        set_header (bytes "Cache-Control") h.cache
          (set_header header_etag h.etag (write_header 200 (write h.body (λ _. done)))))

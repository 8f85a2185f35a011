-- ===== src/Oidc/Jwks.antt =====
-- core/internal/oidc/jwks: the set of the public keys, its ETag and its handler.
pub mod Announced
pub mod Signing
use id_core.Prelude.{
  ℕ, Bool, Option, none, some, List, [], ◌∷◌, ◌+◌, ◌++◌, take, ◌==◌, if◌then◌else◌, Result, ok, err,
  ◌>>=◌, map_err,
}
use id_core.Go.Bytes.{Bytes, bytes, bytes_eq}
use id_core.Go.Context.{background}
use id_core.Go.Strconv.{decimal}
use id_core.Go.Http.{get_header}
use id_core.Http.{Request, Program, done, set_header, write_header, write}
use id_core.Keystore.{Crypto, KeyPair, KeySet, KeyError, alg_rs256}

-- github.com/lestrrat-go/jwx/v3/jwk over the public keys P: Import, Set of one field (whose error the
-- code drops; the key is then what it was), NewSet, AddKey, and json.Marshal of a set.
pub record Jwx (P : Type 0) : Type 1 where
  pub Key : Type 0
  pub Set : Type 0
  pub import_key : P → Result Bytes Key
  pub set_field : Bytes → Bytes → Key → Key
  pub new_set : Set
  pub add_key : Key → Set → Result Bytes Set
  pub marshal_set : Set → Result Bytes Bytes

-- The errors; the numbers are the indices of keys.
pub data JwksError : Type 0 where
  nil_key_set nil_public_key : JwksError
  verifying_failed : KeyError → JwksError
  import_failed marshal_failed add_failed : Bytes → JwksError
  key_failed : ℕ → JwksError → JwksError

abbrev pub jwk_use_signature : Bytes
jwk_use_signature = bytes "sig"

-- Handler.
pub record JwksHandler : Type 0 where
  pub body : Bytes
  pub etag : Bytes
  pub cache : Bytes

unfoldable pub jwks_cache_control : ℕ → Bytes
jwks_cache_control max_age =
    if max_age == 0
    then bytes "no-cache, must-revalidate"
    else bytes "public, max-age=" ++ (decimal max_age ++ bytes ", must-revalidate")

-- `sha256` is sha256.Sum256 and `base64_url` is base64.RawURLEncoding.EncodeToString.
unfoldable pub jwks_etag : (Bytes → Bytes) → (Bytes → Bytes) → Bytes → Bytes
jwks_etag sha256 base64_url body = b'"' ∷ (base64_url (take 16 (sha256 body)) ++ b'"' ∷ [])

module _ (c : Crypto) (x : Jwx c.PublicKey) where
  -- The four fields that are set on an imported key.
  abbrev pub with_fields : Bytes → x.Key → x.Key
  with_fields kid key = x.set_field (bytes "kid") kid (
      x.set_field (bytes "use") jwk_use_signature
        (x.set_field (bytes "alg") alg_rs256 (x.set_field (bytes "kty") (bytes "RSA") key)))

  abbrev pub import_public : Bytes → Option c.PublicKey → Result JwksError x.Key
  import_public kid none = err nil_public_key
  import_public kid (some p) = do
    key ← map_err import_failed (x.import_key p)
    ok (with_fields kid key)

  unfoldable pub to_jwk : Option (KeyPair c) → Result JwksError x.Key
  to_jwk none = err nil_public_key
  to_jwk (some kp) = import_public kp.kid kp.public_key

  -- The loop of BuildSet from the index i on.
  unfoldable pub add_keys : ℕ → List (Option (KeyPair c)) → x.Set → Result JwksError x.Set
  add_keys i [] set = ok set
  add_keys i (kp ∷ keys) set = do
    key ← map_err (key_failed i) (to_jwk kp)
    set' ← map_err (λ e. key_failed i (add_failed e)) (x.add_key key set)
    add_keys (i + 1) keys set'

  unfoldable pub build_set : List (Option (KeyPair c)) → Result JwksError x.Set
  build_set keys = add_keys 0 keys x.new_set

  -- A nil key set is `none`.
  unfoldable pub new_jwks : (Bytes → Bytes) → Option (KeySet c) → ℕ → Result JwksError JwksHandler
  new_jwks base64_url none max_age = err nil_key_set
  new_jwks base64_url (some ks) max_age = do
    keys ← map_err verifying_failed (ks.verifying background)
    set ← build_set keys
    body ← map_err marshal_failed (x.marshal_set set)
    ok (record {
      body = body;
      etag = jwks_etag c.sha256 base64_url body;
      cache = jwks_cache_control max_age;
    })

-- ServeHTTP; the error of Write is dropped.
unfoldable pub serve_jwks : JwksHandler → Request → Program
unfolding bytes_eq
serve_jwks h r =
    if bytes_eq (get_header (bytes "If-None-Match") r.header) h.etag
    then set_header (bytes "Etag") h.etag (write_header 304 done)
    else set_header (bytes "Content-Type") (bytes "application/json") (
        set_header (bytes "Cache-Control") h.cache
          (set_header (bytes "Etag") h.etag (write_header 200 (write h.body (λ _. done)))))

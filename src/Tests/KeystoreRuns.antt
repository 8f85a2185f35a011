-- ===== src/Tests/KeystoreRuns.antt =====
-- The key store and /jwks with small libraries.
use id_core.Prelude.{ℕ, true, false, none, some, List, [], ◌∷◌, ◌≡◌, refl, sym, ok, ok-injective}
use id_core.Go.Bytes.{Bytes, bytes, bytes_eq}
use id_core.Go.Context.{background}
use id_core.Go.Hex.{hex_encode}
use id_core.Go.Strconv.{decimal}
use id_core.Keystore.{
  KeyPair, KeySet, OidcKeyConfig, source_file, source_generated, alg_rs256, derive_kid,
  build_key_pair, check_pem_type, parse_pkcs8_pem, load_from_file, generate_in_memory,
  static_key_set, choose_pair, init,
}
use id_core.Keystore.Published.{Published, init-Published}
use id_core.Oidc.Jwks.{
  JwksHandler, to_jwk, add_keys, build_set, jwks_etag, jwks_cache_control, new_jwks,
}
use id_core.Oidc.Jwks.Announced.{KeepsOrder, new_jwks-public}
use id_core.Oidc.Jwks.Signing.{AnnouncesOne, new_jwks-init}
use id_core.Tests.Toys.{toy_crypto, toy_jwx}

-- A file, and an id of its own.
abbrev from_file : OidcKeyConfig
from_file = record {
  key_file = bytes "/keys/a.pem";
  dev_generate_key = false;
  key_id = bytes "2024-a";
}

abbrev file_pair : KeyPair toy_crypto
file_pair = record {
  kid = bytes "2024-a";
  public_key = some 10;
  private_key = some 9;
  alg = alg_rs256;
}

abbrev file_set : KeySet toy_crypto
file_set = record { active = λ ctx. ok file_pair; verifying = λ ctx. ok (some file_pair ∷ []) }

init_runs : init toy_crypto from_file ≡ ok (file_set, source_file)
unfolding init choose_pair load_from_file parse_pkcs8_pem check_pem_type bytes_eq build_key_pair
    derive_kid hex_encode static_key_set
init_runs = refl

init-Published_example : Published toy_crypto from_file file_set source_file
init-Published_example = init-Published toy_crypto from_file file_set source_file init_runs

-- The kid of a generated key is the code of its public key.
generated_kid :
    choose_pair toy_crypto [] true
    ≡ ok (
      record { kid = bytes "08"; public_key = some 8; private_key = some 7; alg = alg_rs256 },
      source_generated,
    )
unfolding choose_pair generate_in_memory build_key_pair derive_kid hex_encode
generated_kid = refl

abbrev no_private : KeySet toy_crypto
no_private = record {
  active = λ ctx. ok file_pair;
  verifying = λ ctx. ok (some (record file_pair { private_key = none }) ∷ []);
}

abbrev same_bytes : Bytes → Bytes
same_bytes s = s

new_jwks-public_example :
    new_jwks toy_crypto toy_jwx same_bytes (some file_set) 300
    ≡ new_jwks toy_crypto toy_jwx same_bytes (some no_private) 300
new_jwks-public_example =
    new_jwks-public toy_crypto toy_jwx same_bytes file_set no_private (some file_pair ∷ [])
      (some (record file_pair { private_key = none }) ∷ []) 300 refl refl refl

abbrev whole_set : List (List (Bytes × Bytes)) → List (List (Bytes × Bytes))
whole_set set = set

abbrev toy_order : KeepsOrder toy_jwx whole_set
toy_order = record { empty = refl; appends = λ key set late h. sym (ok-injective h) }

abbrev handler : JwksHandler
handler = record {
  body = bytes "{}";
  etag = bytes "\"{}\"";
  cache = bytes "public, max-age=300, must-revalidate";
}

handler_runs : new_jwks toy_crypto toy_jwx same_bytes (some file_set) 300 ≡ ok handler
unfolding new_jwks build_set add_keys to_jwk jwks_etag jwks_cache_control decimal
handler_runs = refl

new_jwks-init_example :
    (key : ℕ) × (some 9 ≡ some key)
    × AnnouncesOne toy_crypto toy_jwx whole_set key (bytes "2024-a") (bytes "{}")
new_jwks-init_example =
    new_jwks-init toy_crypto toy_jwx whole_set toy_order same_bytes from_file file_set source_file
      300 handler init_runs handler_runs file_pair background refl

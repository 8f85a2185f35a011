-- ===== src/Keystore.antt =====
-- core/internal/keystore/keystore.go: the signing key, its source and its id.
pub mod Published
use id_core.Prelude.{
  ℕ, ◌+◌, ◌-◌, ◌/◌, ◌%◌, Bool, true, false, Option, none, some, List, [], ◌∷◌, ◌++◌, take,
  if◌then◌else◌, Result, ok, err, ◌>>=◌, map_err,
}
use id_core.Go.Bytes.{Bytes, bytes, bytes_eq, is_empty}
use id_core.Go.Context.{Context}
use id_core.Go.Hex.{hex_encode}

-- A block that pem.Decode finds, and a key that x509.ParsePKCS8PrivateKey gives: an RSA key, or one
-- of another Go type (%T).
pub record PemBlock : Type 0 where
  pub type_name : Bytes
  pub content : Bytes

pub data ParsedKey (K : Type 0) : Type 0 where
  rsa_key : K → ParsedKey K
  other_key : Bytes → ParsedKey K

-- crypto/rsa, crypto/x509, crypto/sha256, encoding/pem and os.ReadFile. `generate_key` is the result
-- that rsa.GenerateKey gives for a length, and `bit_len` is 0 for a key without a modulus.
pub record Crypto : Type 1 where
  pub PublicKey : Type 0
  pub PrivateKey : Type 0
  pub public_of : PrivateKey → PublicKey
  pub bit_len : PublicKey → ℕ
  pub read_file : Bytes → Result Bytes Bytes
  pub pem_decode : Bytes → Option PemBlock
  pub parse_pkcs8 : Bytes → Result Bytes (ParsedKey PrivateKey)
  pub marshal_pkix : PublicKey → Result Bytes Bytes
  pub sha256 : Bytes → Bytes
  pub generate_key : ℕ → Result Bytes PrivateKey

abbrev pub alg_rs256 : Bytes
alg_rs256 = bytes "RS256"

abbrev pub kid_byte_len : ℕ
kid_byte_len = 12

abbrev pub generated_key_bit_len : ℕ
generated_key_bit_len = 2048

abbrev pub pem_type_pkcs8 : Bytes
pem_type_pkcs8 = bytes "PRIVATE KEY"

abbrev pub pem_type_pkcs1 : Bytes
pem_type_pkcs1 = bytes "RSA PRIVATE KEY"

abbrev pub pem_type_encrypted : Bytes
pem_type_encrypted = bytes "ENCRYPTED PRIVATE KEY"

-- The errors, with what their messages quote.
pub data KeyError : Type 0 where
  no_source no_pem_block pkcs1_format encrypted_pem active_missing verifying_missing : KeyError
  read_failed : Bytes → Bytes → KeyError
  generate_failed parse_failed der_failed : Bytes → KeyError
  wrong_pem_type not_rsa : Bytes → KeyError

pub data Source : Type 0 where
  source_file source_generated : Source

unfoldable pub source_string : Source → Bytes
source_string source_file = bytes "file"
source_string source_generated = bytes "generated"

pub record OidcKeyConfig : Type 0 where
  pub key_file : Bytes
  pub dev_generate_key : Bool
  pub key_id : Bytes

module _ (c : Crypto) where
  -- A nil pointer to a key is `none`.
  pub record KeyPair : Type 0 where
    pub kid : Bytes
    pub public_key : Option c.PublicKey
    pub private_key : Option c.PrivateKey
    pub alg : Bytes

  unfoldable pub bit_len : Option KeyPair → ℕ
  bit_len none = 0
  bit_len (some k) = elim k.public_key [ none ↦ 0 | some p ↦ c.bit_len p ]

  -- The interface: the key that signs, and the keys that /jwks announces.
  pub record KeySet : Type 0 where
    pub active : Context → Result KeyError KeyPair
    pub verifying : Context → Result KeyError (List (Option KeyPair))

  unfoldable pub derive_kid : c.PublicKey → Result KeyError Bytes
  unfolding hex_encode
  derive_kid p = do
    der ← map_err der_failed (c.marshal_pkix p)
    ok (hex_encode (take kid_byte_len (c.sha256 der)))

  unfoldable pub build_key_pair : c.PrivateKey → Result KeyError KeyPair
  build_key_pair key = do
    kid ← derive_kid (c.public_of key)
    ok (record {
      kid = kid;
      public_key = some (c.public_of key);
      private_key = some key;
      alg = alg_rs256;
    })

  abbrev pub require_rsa : ParsedKey c.PrivateKey → Result KeyError c.PrivateKey
  require_rsa (rsa_key k) = ok k
  require_rsa (other_key t) = err (not_rsa t)

  -- The switch on the type of the block.
  unfoldable pub check_pem_type : Bytes → Result KeyError (Unit {0})
  unfolding bytes_eq
  check_pem_type t =
      if bytes_eq t pem_type_pkcs8
      then ok tt
      else if bytes_eq t pem_type_pkcs1
      then err pkcs1_format
      else if bytes_eq t pem_type_encrypted
      then err encrypted_pem
      else err (wrong_pem_type t)

  abbrev pub require_block : Option PemBlock → Result KeyError PemBlock
  require_block none = err no_pem_block
  require_block (some b) = ok b

  unfoldable pub parse_pkcs8_pem : Bytes → Result KeyError KeyPair
  parse_pkcs8_pem text = do
    block ← require_block (c.pem_decode text)
    _ ← check_pem_type block.type_name
    parsed ← map_err parse_failed (c.parse_pkcs8 block.content)
    key ← require_rsa parsed
    build_key_pair key

  unfoldable pub load_from_file : Bytes → Result KeyError KeyPair
  load_from_file path = do
    text ← map_err (read_failed path) (c.read_file path)
    parse_pkcs8_pem text

  unfoldable pub generate_in_memory : Result KeyError KeyPair
  generate_in_memory = do
    key ← map_err generate_failed (c.generate_key generated_key_bit_len)
    build_key_pair key

  -- staticKeySet; a nil pair is `none`.
  unfoldable pub static_key_set : Option KeyPair → KeySet
  static_key_set none = record {
    active = λ ctx. err active_missing;
    verifying = λ ctx. err verifying_missing;
  }
  static_key_set (some pair) = record {
    active = λ ctx. ok pair;
    verifying = λ ctx. ok (some pair ∷ []);
  }

  -- The switch of Init on the file and on the flag.
  unfoldable pub choose_pair : Bytes → Bool → Result KeyError (KeyPair × Source)
  choose_pair (b ∷ path) dev_gen = do pair ← load_from_file (b ∷ path); ok (pair, source_file)
  choose_pair [] true = do pair ← generate_in_memory; ok (pair, source_generated)
  choose_pair [] false = err no_source

  -- An id of the configuration takes the place of the derived one.
  abbrev pub override_kid : Bytes → KeyPair → KeyPair
  override_kid [] pair = pair
  override_kid (b ∷ id) pair = record pair { kid = b ∷ id }

  unfoldable pub init : OidcKeyConfig → Result KeyError (KeySet × Source)
  init cfg = do
    (pair, src) ← choose_pair cfg.key_file cfg.dev_generate_key
    ok (static_key_set (some (override_kid cfg.key_id pair)), src)

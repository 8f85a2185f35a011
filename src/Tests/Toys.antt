-- ===== src/Tests/Toys.antt =====
-- Small libraries for the runs: a key is a number, and a file system is a list of files.
use id_core.Prelude.{
  ℕ, ◌+◌, ◌-◌, false, none, some, List, [], ◌∷◌, ◌++◌, Result, ok, err, suc, refl, arith,
}
use id_core.Go.Bytes.{Bytes, bytes}
use id_core.DbMigrate.{Migrator, applied, at_version}
use id_core.Db.Open.{Pgx}
use id_core.Db.Open.Balance.{CountsPools}
use id_core.Keystore.{Crypto, ParsedKey, rsa_key, pem_type_pkcs8}
use id_core.Oidc.Jwks.{Jwx}

abbrev pub one_byte_key : Bytes → Result Bytes (ParsedKey ℕ)
one_byte_key (k ∷ []) = ok (rsa_key k)
one_byte_key _ = err (bytes "asn1: structure error")

-- The public key of k is k + 1; its modulus has 64 bits. Every file holds the key 9.
abbrev pub toy_crypto : Crypto
toy_crypto = record {
  PublicKey = ℕ;
  PrivateKey = ℕ;
  public_of = λ k. k + 1;
  bit_len = λ p. 64;
  read_file = λ path. ok (9 ∷ []);
  pem_decode = λ text. some (record { type_name = pem_type_pkcs8; content = text });
  parse_pkcs8 = one_byte_key;
  marshal_pkix = λ p. ok (p ∷ []);
  sha256 = λ s. s;
  generate_key = λ length. ok 7;
}

-- A key is the list of its fields.
abbrev pub toy_jwx : Jwx ℕ
toy_jwx = record {
  Key = List (Bytes × Bytes);
  Set = List (List (Bytes × Bytes));
  import_key = λ p. ok ((bytes "n", p ∷ []) ∷ []);
  set_field = λ name value key. key ++ (name, value) ∷ [];
  new_set = [];
  add_key = λ key set. ok (set ++ key ∷ []);
  marshal_set = λ set. ok (bytes "{}");
}

-- The world is the number of the open pools.
abbrev pub toy_pgx : Pgx ℕ
toy_pgx = record {
  Rest = Unit;
  Pool = Unit;
  parse_config = λ dsn. ok (record {
    max_conns = 4;
    min_conns = 0;
    max_conn_lifetime = 0;
    max_conn_idle_time = 0;
    health_check_period = 0;
    rest = tt;
  });
  new_with_config = λ ctx cfg s. (ok tt, suc s);
  ping = λ ctx pool s. (none, s);
  close = λ pool s. s - 1;
}

abbrev pub clean_schema : Migrator
clean_schema = record {
  State = ℕ;
  open_migrator = λ source dsn s. (none, s);
  up = λ s. (applied, s);
  step_down = λ s. (applied, s);
  version = λ s. (at_version 3 false, s);
  close = λ s. (none, none, s);
}

pub toy_pools : CountsPools toy_pgx (λ s. s)
toy_pools = record {
  made = λ ctx cfg s pool h. refl;
  refused = λ ctx cfg s e h. cc;
  pinged = λ ctx pool s. refl;
  closed = λ pool s n h. omega (arith, h);
}

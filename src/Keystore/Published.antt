-- ===== src/Keystore/Published.antt =====
-- The keys of an initialised key set.
use id_core.Prelude.{
  Bool, true, false, Option, none, some, [], ◌∷◌, ◌≡◌, refl, subst, arith, inl, inr, Bool-cases, ok,
  map_err, Yields, >>=-Yields, ok-Yields, map_err-Yields,
}
use id_core.Go.Bytes.{Bytes, bytes_eq, bytes_eq_sound}
use id_core.Go.Context.{Context}
use id_core.Keystore.{
  Crypto, PemBlock, ParsedKey, rsa_key, other_key, KeyPair, KeySet, Source, source_file,
  source_generated, OidcKeyConfig, alg_rs256, generated_key_bit_len, pem_type_pkcs8, derive_kid,
  build_key_pair, require_rsa, check_pem_type, require_block, parse_pkcs8_pem, load_from_file,
  generate_in_memory, static_key_set, choose_pair, override_kid, init,
}

module _ (c : Crypto) where
  -- The file holds the key as an RSA key in PKCS#8, unencrypted, in a PEM block.
  pub record FromFile (path : Bytes) (key : c.PrivateKey) : Type 0 where
    pub text : Bytes
    pub block : PemBlock
    pub read : c.read_file path ≡ ok text
    pub decoded : c.pem_decode text ≡ some block
    pub pkcs8 : block.type_name ≡ pem_type_pkcs8
    pub parsed : c.parse_pkcs8 block.content ≡ ok (rsa_key key)

  -- The id of a key: the configured one, or without it the one that its public key gives.
  abbrev pub IsKid : Bytes → c.PrivateKey → Bytes → Type 0
  IsKid [] key kid = derive_kid c (c.public_of key) ≡ ok kid
  IsKid (b ∷ id) key kid = kid ≡ b ∷ id

  -- The pair of a private key, for the configured id.
  pub record IsPairOf (id : Bytes) (key : c.PrivateKey) (pair : KeyPair c) : Type 0 where
    pub private_key : pair.private_key ≡ some key
    pub public_key : pair.public_key ≡ some (c.public_of key)
    pub alg : pair.alg ≡ alg_rs256
    pub kid : IsKid id key pair.kid

  override_kid-IsPairOf :
      (id : Bytes) (key : c.PrivateKey) (pair : KeyPair c)
      → IsPairOf [] key pair
      → IsPairOf id key (override_kid c id pair)
  override_kid-IsPairOf [] key pair is = is
  override_kid-IsPairOf (b ∷ id) key pair is = record {
    private_key = is.private_key;
    public_key = is.public_key;
    alg = is.alg;
    kid = refl;
  }

  build_key_pair-IsPairOf : (key : c.PrivateKey) → Yields (IsPairOf [] key) (build_key_pair c key)
  unfolding build_key_pair
  build_key_pair-IsPairOf key =
      >>=-Yields (IsPairOf [] key) (derive_kid c (c.public_of key)) _ λ kid kid_ok.
        ok-Yields (IsPairOf [] key) _
          (record { private_key = refl; public_key = refl; alg = refl; kid = kid_ok })

  check_pem_type-eq : (t : Bytes) → Yields (λ _. t ≡ pem_type_pkcs8) (check_pem_type c t)
  unfolding check_pem_type
  check_pem_type-eq t u h = elim (Bool-cases (bytes_eq t pem_type_pkcs8)) [
    | inl same ↦ bytes_eq_sound t pem_type_pkcs8 same
    | inr other ↦ ground arith
  ]

  require_block-eq : (b : Option PemBlock) → Yields (λ block. b ≡ some block) (require_block c b)
  require_block-eq none block h = cc
  require_block-eq (some b) block h = cc

  require_rsa-eq : (k : ParsedKey c.PrivateKey) → Yields (λ key. k ≡ rsa_key key) (require_rsa c k)
  require_rsa-eq (rsa_key k) key h = cc
  require_rsa-eq (other_key t) key h = cc

  -- A pair of a key that the file holds.
  abbrev pub PairFrom : (c.PrivateKey → Type 0) → KeyPair c → Type 0
  PairFrom P pair = (key : c.PrivateKey) × P key × IsPairOf [] key pair

  load_from_file-PairFrom :
      (path : Bytes) → Yields (PairFrom (FromFile path)) (load_from_file c path)
  unfolding load_from_file parse_pkcs8_pem
  load_from_file-PairFrom path =
      let P = PairFrom (FromFile path) in
      >>=-Yields P (map_err _ (c.read_file path)) _ λ text text_ok.
        >>=-Yields P (require_block c (c.pem_decode text)) _ λ block block_ok.
          >>=-Yields P (check_pem_type c block.type_name) _ λ u type_ok.
            >>=-Yields P (map_err _ (c.parse_pkcs8 block.content)) _ λ parsed parsed_ok.
              >>=-Yields P (require_rsa c parsed) _ λ key key_ok pair pair_ok. (
                key,
                record {
                  text = text;
                  block = block;
                  read = map_err-Yields _ (c.read_file path) text text_ok;
                  decoded = require_block-eq (c.pem_decode text) block block_ok;
                  pkcs8 = check_pem_type-eq block.type_name u type_ok;
                  parsed =
                      subst (λ k. c.parse_pkcs8 block.content ≡ ok k)
                        (require_rsa-eq parsed key key_ok)
                        (map_err-Yields _ (c.parse_pkcs8 block.content) parsed parsed_ok);
                },
                build_key_pair-IsPairOf key pair pair_ok,
              )

  generate_in_memory-PairFrom :
      Yields
        (PairFrom (λ key. c.generate_key generated_key_bit_len ≡ ok key))
        (generate_in_memory c)
  unfolding generate_in_memory
  generate_in_memory-PairFrom =
      >>=-Yields (PairFrom (λ key. c.generate_key generated_key_bit_len ≡ ok key))
        (map_err _ (c.generate_key generated_key_bit_len)) _
        λ key key_ok pair pair_ok. (
          key,
          map_err-Yields _ (c.generate_key generated_key_bit_len) key key_ok,
          build_key_pair-IsPairOf key pair pair_ok,
        )

  -- Where the key comes from.
  abbrev pub IsFrom : Bytes → Bool → Source → c.PrivateKey → Type 0
  IsFrom [] dev_gen source_generated key =
      (dev_gen ≡ true) × (c.generate_key generated_key_bit_len ≡ ok key)
  IsFrom (b ∷ path) dev_gen source_file key = FromFile (b ∷ path) key
  IsFrom _ _ _ key = ⊥

  choose_pair-IsFrom :
      (path : Bytes) (dev_gen : Bool)
      → Yields (λ p. PairFrom (IsFrom path dev_gen p.1) p.0) (choose_pair c path dev_gen)
  unfolding choose_pair
  choose_pair-IsFrom (b ∷ path) dev_gen =
      let P : KeyPair c × Source → Type 0 = λ p. PairFrom (IsFrom (b ∷ path) dev_gen p.1) p.0 in
      >>=-Yields P (load_from_file c (b ∷ path)) _
        λ pair pair_ok. ok-Yields P _ (load_from_file-PairFrom (b ∷ path) pair pair_ok)
  choose_pair-IsFrom [] true =
      let P : KeyPair c × Source → Type 0 = λ p. PairFrom (IsFrom [] true p.1) p.0 in
      >>=-Yields P (generate_in_memory c) _ λ pair pair_ok.
        let (key, from, is) = generate_in_memory-PairFrom pair pair_ok in
        ok-Yields P _ (key, (refl, from), is)
  choose_pair-IsFrom [] false = λ p h. cc

  -- What the initialised set gives to its clients.
  pub record Published (cfg : OidcKeyConfig) (ks : KeySet c) (src : Source) : Type 0 where
    pub key : c.PrivateKey
    pub pair : KeyPair c
    pub from : IsFrom cfg.key_file cfg.dev_generate_key src key
    pub pair_of : IsPairOf cfg.key_id key pair
    pub active : (ctx : Context) → ks.active ctx ≡ ok pair
    pub verifying : (ctx : Context) → ks.verifying ctx ≡ ok (some pair ∷ [])

  -- An initialised key set has one pair, which signs and is the one that is announced: the RSA key of
  -- the configured file (unencrypted PKCS#8 in PEM), or without a file a generated one of 2048 bits;
  -- with its public key, RS256, and the configured id or else the one derived from the public key.
  pub init-Published :
      (cfg : OidcKeyConfig) (ks : KeySet c) (src : Source)
      → init c cfg ≡ ok (ks, src)
      → Published cfg ks src
  unfolding init static_key_set
  init-Published cfg ks src h =
      let P : KeySet c × Source → Type 0 = λ p. Published cfg p.0 p.1 in
      (>>=-Yields P (choose_pair c cfg.key_file cfg.dev_generate_key) _ λ chosen chosen_ok.
          let (key, from, is) =
            choose_pair-IsFrom cfg.key_file cfg.dev_generate_key chosen chosen_ok in
          ok-Yields P _ (record {
            key = key;
            pair = override_kid c cfg.key_id chosen.0;
            from = from;
            pair_of = override_kid-IsPairOf cfg.key_id key chosen.0 is;
            active = λ ctx. refl;
            verifying = λ ctx. refl;
          }))
        (ks, src) h

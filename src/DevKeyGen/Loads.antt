-- ===== src/DevKeyGen/Loads.antt =====
-- The key file that the command writes is one that the service reads.
use id_core.Prelude.{
  ◌≡◌, ◌≢◌, refl, sym, ap, ◌∙◌, Bool, false, Option, none, some, List, Result, ok, err, map_err,
  take, Yields, >>=-Yields, ok-Yields, map_err-Yields, Bool-cases, inl, inr,
}
use id_core.Go.Bytes.{Bytes, bytes_eq, is_empty}
use id_core.Go.Hex.{hex_encode}
use id_core.Keystore.{
  Crypto, rsa_key, KeyPair, derive_kid, build_key_pair, check_pem_type, parse_pkcs8_pem,
  load_from_file, kid_byte_len, alg_rs256,
}
use id_core.DevKeyGen.Flags.{Options, parse_flags}
use id_core.DevKeyGen.{
  Os, KeyWriter, KeyFiles, GenError, generate_failed, pkcs8_failed, pkix_failed, default_out_dir,
  out_dir_mode, private_key_file_name, public_key_file_name, private_key_mode, key_bits,
  pem_type_private, write_file_mode, make_files, after_private, after_make, after_check,
  after_mkdir, generate, after_generate, run,
}
use id_core.DevKeyGen.Keeps.{HasContent, write_file_mode-content, still_apart, after_private-keeps}

-- The contract of encoding/pem, for a block of the type of private keys, and of crypto/x509: what is
-- encoded is decoded.
pub record Decodes (c : Crypto) (w : KeyWriter c) : Type 0 where
  pub pem :
      (der : Bytes)
      → c.pem_decode (w.pem_encode (record { type_name = pem_type_private; content = der }))
        ≡ some (record { type_name = pem_type_private; content = der })
  pub pkcs8 :
      (key : c.PrivateKey) (der : Bytes)
      → w.marshal_pkcs8 key ≡ ok der
      → c.parse_pkcs8 der ≡ ok (rsa_key key)

module _ {F N : Type 0} (os : Os F) (content : F → Bytes → Option Bytes) (file : F → Bytes → N)
    (has : HasContent os content file) where
  module _ (c : Crypto) (w : KeyWriter c) where
    -- The file at the path holds the private key of the pair.
    abbrev Wrote : Bytes → Result GenError (KeyFiles os c w) → F → Type 0
    Wrote priv r late =
        (k : KeyFiles os c w) × (r ≡ ok k) × (content late priv ≡ some k.private_pem)

    after_private-none :
        (priv public : Bytes) (k : KeyFiles os c w) (r : Option Bytes × F)
        → (after_private os c w priv public k r).0 ≡ none
        → r.0 ≡ none
    after_private-none priv public k (some e, f) h = cc
    after_private-none priv public k (none, f) h = refl

    after_make-Wrote :
        (priv public : Bytes) (r : Result GenError (KeyFiles os c w)) (f : F)
        → file f public ≢ file f priv
        → (after_make os c w priv public r f).0 ≡ none
        → Wrote priv r (after_make os c w priv public r f).1
    after_make-Wrote priv public (err e) f ne h = cc
    after_make-Wrote priv public (ok k) f ne h = (
      k,
      refl,
      after_private-keeps os content file has c w priv priv public k
            (write_file_mode os priv k.private_pem private_key_mode f)
            (still_apart os content file has priv public priv k.private_pem private_key_mode f ne)
          ∙ write_file_mode-content os content file has priv k.private_pem private_key_mode f (
              after_private-none priv public k
                (write_file_mode os priv k.private_pem private_key_mode f) h),
    )

    after_check-Wrote :
        (priv public : Bytes) (r : Option GenError) (f : F)
        → file f public ≢ file f priv
        → (after_check os c w priv public r f).0 ≡ none
        → Wrote priv (make_files os c w) (after_check os c w priv public r f).1
    after_check-Wrote priv public (some e) f ne h = cc
    after_check-Wrote priv public none f ne h =
        after_make-Wrote priv public (make_files os c w) f ne h

    after_mkdir-Wrote :
        (dir : Bytes) (force : Bool) (r : Option Bytes × F)
        → file r.1 (os.join_path dir public_key_file_name)
          ≢ file r.1 (os.join_path dir private_key_file_name)
        → (after_mkdir os c w dir force r).0 ≡ none
        → Wrote
            (os.join_path dir private_key_file_name)
            (make_files os c w)
            (after_mkdir os c w dir force r).1
    after_mkdir-Wrote dir force (some e, f) ne h = cc
    after_mkdir-Wrote dir force (none, f) ne h = after_check-Wrote _ _ _ f ne h

    generate-Wrote :
        (dir : Bytes) (force : Bool) (f : F)
        → file f (os.join_path dir public_key_file_name)
          ≢ file f (os.join_path dir private_key_file_name)
        → (generate os c w dir force f).0 ≡ none
        → Wrote
            (os.join_path dir private_key_file_name)
            (make_files os c w)
            (generate os c w dir force f).1
    unfolding generate
    generate-Wrote dir force f ne = elim (Bool-cases (is_empty dir)) [
      | inl empty ↦ rw empty (λ h. cc)
      | inr full ↦ rw full (
          after_mkdir-Wrote dir force (os.mkdir_all dir out_dir_mode f) (λ same. ne (
            sym (has.mkdir_file dir _ out_dir_mode f)
            ∙ same
            ∙ has.mkdir_file dir _ out_dir_mode f)))
    ]

    -- The key file of a key, and its id.
    abbrev Encodes : KeyFiles os c w → Type 0
    Encodes k =
        (key : c.PrivateKey) × (der : Bytes) × (kid : Bytes) × (c.generate_key key_bits ≡ ok key)
        × (w.marshal_pkcs8 key ≡ ok der)
        × (derive_kid c (c.public_of key) ≡ ok kid)
        × (k.private_pem ≡ w.pem_encode (record { type_name = pem_type_private; content = der }))

    derive_kid-ok :
        (p : c.PublicKey) (der : Bytes)
        → c.marshal_pkix p ≡ ok der
        → (kid : Bytes) × (derive_kid c p ≡ ok kid)
    unfolding derive_kid
    derive_kid-ok p der h = (hex_encode (take kid_byte_len (c.sha256 der)), rw h refl)

    make_files-Encodes : Yields Encodes (make_files os c w)
    unfolding make_files
    make_files-Encodes =
        >>=-Yields Encodes (map_err generate_failed (c.generate_key key_bits)) _ λ key key_ok.
          >>=-Yields Encodes (map_err pkcs8_failed (w.marshal_pkcs8 key)) _ λ der der_ok.
            >>=-Yields Encodes (map_err pkix_failed (c.marshal_pkix (c.public_of key))) _
              λ public public_ok.
                let (kid, kid_ok) =
                  derive_kid-ok (c.public_of key) public
                    (map_err-Yields _ (c.marshal_pkix (c.public_of key)) public public_ok) in
                ok-Yields Encodes _ (
                  key,
                  der,
                  kid,
                  map_err-Yields _ (c.generate_key key_bits) key key_ok,
                  map_err-Yields _ (w.marshal_pkcs8 key) der der_ok,
                  kid_ok,
                  refl,
                )

    load-Encodes :
        (decodes : Decodes c w) (path : Bytes) (k : KeyFiles os c w)
        → Encodes k
        → c.read_file path ≡ ok k.private_pem
        → (key : c.PrivateKey) × (pair : KeyPair c) × (c.generate_key key_bits ≡ ok key)
          × (load_from_file c path ≡ ok pair)
          × (pair.private_key ≡ some key)
    unfolding load_from_file parse_pkcs8_pem build_key_pair check_pem_type bytes_eq
    load-Encodes decodes path k (key, der, kid, made, coded, id, pem) read = (
      key,
      record {
        kid = kid;
        public_key = some (c.public_of key);
        private_key = some key;
        alg = alg_rs256;
      },
      made,
      rw (read, pem, decodes.pem der, decodes.pkcs8 key der coded, id) refl,
      refl,
    )

    after_generate_code :
        (dir : Bytes) (r : Option GenError × F)
        → (after_generate os c w dir r).code ≡ 0
        → r.0 ≡ none
    after_generate_code dir (some e, f) h = cc
    after_generate_code dir (none, f) h = refl

    after_generate-late :
        (dir : Bytes) (r : Option GenError × F) → (after_generate os c w dir r).files ≡ r.1
    after_generate-late dir (some e, f) = refl
    after_generate-late dir (none, f) = refl

    -- After a run that succeeds, the service reads the private key file that it wrote: the key store
    -- takes it and has the generated key of 2048 bits as its private key. It supposes a library that
    -- decodes what it encodes, the contract of package os on the contents of files, that the paths of
    -- the two files name two files when the run begins (no link leads from one to the other), and
    -- that the service reads the private key file as the run left it.
    pub run-loads :
        (args : List Bytes) (flags : Options) (f : F)
        → Decodes c w
        → parse_flags args (record { out = default_out_dir; force = false }) ≡ some flags
        → file f (os.join_path flags.out public_key_file_name)
          ≢ file f (os.join_path flags.out private_key_file_name)
        → (run os c w args f).code ≡ 0
        → ((text : Bytes)
            → content (run os c w args f).files (os.join_path flags.out private_key_file_name)
              ≡ some text
            → c.read_file (os.join_path flags.out private_key_file_name) ≡ ok text)
        → (key : c.PrivateKey) × (pair : KeyPair c) × (c.generate_key key_bits ≡ ok key)
          × (load_from_file c (os.join_path flags.out private_key_file_name) ≡ ok pair)
          × (pair.private_key ≡ some key)
    unfolding run
    run-loads args flags f decodes parsed ne = rw parsed λ success reads.
        let r = generate os c w flags.out flags.force f in
        let (k, made, there) =
          generate-Wrote flags.out flags.force f ne (after_generate_code flags.out r success) in
        load-Encodes decodes (os.join_path flags.out private_key_file_name) k
          (make_files-Encodes k made)
          (reads k.private_pem (
            ap (λ g. content g (os.join_path flags.out private_key_file_name))
              (after_generate-late flags.out r)
            ∙ there))

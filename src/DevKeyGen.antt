-- ===== src/DevKeyGen.antt =====
-- core/cmd/devkeygen/main.go: the command that writes a key pair for development.
pub mod Flags
pub mod Keeps
pub mod Loads
use id_core.Prelude.{
  ℕ, Bool, true, false, Option, none, some, List, [], ◌∷◌, ◌++◌, Result, ok, err, map_err, ◌>>=◌,
  if◌then◌else◌,
}
use id_core.Go.Bytes.{Bytes, bytes, is_empty}
use id_core.Keystore.{Crypto, PemBlock}
use id_core.DevKeyGen.Flags.{Options, parse_flags}

abbrev pub default_out_dir : Bytes
default_out_dir = bytes "./dev-keys"

abbrev pub key_bits : ℕ
key_bits = 2048

abbrev pub private_key_file_name : Bytes
private_key_file_name = bytes "signing.pem"

abbrev pub public_key_file_name : Bytes
public_key_file_name = bytes "signing.pub.pem"

-- 0o600, 0o644 and 0o700.
abbrev pub private_key_mode : ℕ
private_key_mode = 384

abbrev pub public_key_mode : ℕ
public_key_mode = 420

abbrev pub out_dir_mode : ℕ
out_dir_mode = 448

abbrev pub pem_type_private : Bytes
pem_type_private = bytes "PRIVATE KEY"

abbrev pub pem_type_public : Bytes
pem_type_public = bytes "PUBLIC KEY"

abbrev pub exit_ok : ℕ
exit_ok = 0

abbrev pub exit_error : ℕ
exit_error = 1

-- os.Stat: a file, os.ErrNotExist, or another error.
pub data Stat : Type 0 where
  exists absent : Stat
  unknown : Bytes → Stat

-- os.MkdirAll, Stat, WriteFile and Chmod over the files F, and filepath.Join of a directory and a name.
pub record Os (F : Type 0) : Type 0 where
  pub mkdir_all : Bytes → ℕ → F → Option Bytes × F
  pub stat : Bytes → F → Stat
  pub write_file : Bytes → Bytes → ℕ → F → Option Bytes × F
  pub chmod : Bytes → ℕ → F → Option Bytes × F
  pub join_path : Bytes → Bytes → Bytes

-- x509.MarshalPKCS8PrivateKey and pem.EncodeToMemory.
pub record KeyWriter (c : Crypto) : Type 0 where
  pub marshal_pkcs8 : c.PrivateKey → Result Bytes Bytes
  pub pem_encode : PemBlock → Bytes

-- The errors, with what their messages quote.
pub data GenError : Type 0 where
  empty_out : GenError
  mkdir_failed stat_failed private_failed public_failed : Bytes → Bytes → GenError
  already_exists : Bytes → GenError
  generate_failed pkcs8_failed pkix_failed : Bytes → GenError

-- What the loop does with a path, before `rest`.
abbrev pub refuse_present : Bytes → Stat → Option GenError → Option GenError
refuse_present p exists rest = some (already_exists p)
refuse_present p absent rest = rest
refuse_present p (unknown e) rest = some (stat_failed p e)

module _ {F : Type 0} (os : Os F) where
  abbrev pub after_write : Bytes → ℕ → Option Bytes × F → Option Bytes × F
  after_write path mode (some e, files) = (some e, files)
  after_write path mode (none, files) = os.chmod path mode files

  unfoldable pub write_file_mode : Bytes → Bytes → ℕ → F → Option Bytes × F
  write_file_mode path data_bytes mode files =
      after_write path mode (os.write_file path data_bytes mode files)

  -- The loop over the two paths.
  unfoldable pub check_absent : List Bytes → F → Option GenError
  check_absent [] files = none
  check_absent (p ∷ paths) files = refuse_present p (os.stat p files) (check_absent paths files)

  module _ (c : Crypto) (w : KeyWriter c) where
    -- The contents of the two files.
    pub record KeyFiles : Type 0 where
      pub private_pem : Bytes
      pub public_pem : Bytes

    unfoldable pub make_files : Result GenError KeyFiles
    make_files = do
      key ← map_err generate_failed (c.generate_key key_bits)
      private_der ← map_err pkcs8_failed (w.marshal_pkcs8 key)
      public_der ← map_err pkix_failed (c.marshal_pkix (c.public_of key))
      ok (record {
        private_pem = w.pem_encode (record { type_name = pem_type_private; content = private_der });
        public_pem = w.pem_encode (record { type_name = pem_type_public; content = public_der });
      })

    abbrev pub after_public : Bytes → Option Bytes × F → Option GenError × F
    after_public pub_path (some e, files) = (some (public_failed pub_path e), files)
    after_public pub_path (none, files) = (none, files)

    abbrev pub after_private : Bytes → Bytes → KeyFiles → Option Bytes × F → Option GenError × F
    after_private priv_path pub_path k (some e, files) = (some (private_failed priv_path e), files)
    after_private priv_path pub_path k (none, files) =
        after_public pub_path (write_file_mode pub_path k.public_pem public_key_mode files)

    abbrev pub after_make : Bytes → Bytes → Result GenError KeyFiles → F → Option GenError × F
    after_make priv_path pub_path (err e) files = (some e, files)
    after_make priv_path pub_path (ok k) files =
        after_private priv_path pub_path k
          (write_file_mode priv_path k.private_pem private_key_mode files)

    abbrev pub after_check : Bytes → Bytes → Option GenError → F → Option GenError × F
    after_check priv_path pub_path (some e) files = (some e, files)
    after_check priv_path pub_path none files = after_make priv_path pub_path make_files files

    abbrev pub after_mkdir : Bytes → Bool → Option Bytes × F → Option GenError × F
    after_mkdir out_dir force (some e, files) = (some (mkdir_failed out_dir e), files)
    after_mkdir out_dir force (none, files) =
        let priv_path = os.join_path out_dir private_key_file_name in
        let pub_path = os.join_path out_dir public_key_file_name in
        after_check priv_path pub_path
          (if force then none else check_absent (priv_path ∷ pub_path ∷ []) files) files

    -- The line that a success writes to stdout is that of after_generate.
    unfoldable pub generate : Bytes → Bool → F → Option GenError × F
    unfolding is_empty
    generate out_dir force files =
        if is_empty out_dir
        then (some empty_out, files)
        else after_mkdir out_dir force (os.mkdir_all out_dir out_dir_mode files)

    -- What the command leaves: the exit code, the paths on stdout, and the error on stderr. The flag
    -- package has written its own message.
    pub record Ended : Type 0 where
      pub code : ℕ
      pub files : F
      pub stdout : Option (Bytes × Bytes)
      pub stderr : Option GenError

    abbrev pub after_generate : Bytes → Option GenError × F → Ended
    after_generate out_dir (some e, files) = record {
      code = exit_error;
      files = files;
      stdout = none;
      stderr = some e;
    }
    after_generate out_dir (none, files) = record {
      code = exit_ok;
      files = files;
      stdout =
          some
            (os.join_path out_dir private_key_file_name, os.join_path out_dir public_key_file_name);
      stderr = none;
    }

    abbrev pub after_parse : Option Options → F → Ended
    after_parse none files = record {
      code = exit_error;
      files = files;
      stdout = none;
      stderr = none;
    }
    after_parse (some flags) files = after_generate flags.out (generate flags.out flags.force files)

    unfoldable pub run : List Bytes → F → Ended
    unfolding parse_flags
    run args files =
        after_parse (parse_flags args (record { out = default_out_dir; force = false })) files

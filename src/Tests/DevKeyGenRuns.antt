-- ===== src/Tests/DevKeyGenRuns.antt =====
-- devkeygen on a file system that is a list of files, the newest first.
use id_core.Prelude.{
  ℕ, ◌≡◌, ◌≢◌, refl, sym, subst, false, Option, none, some, List, [], ◌∷◌, ◌++◌, if◌then◌else◌,
  Result, ok, err, ok-injective, ap, ◌∙◌, ◌==◌, Bool-cases, inl, inr,
}
use id_core.Go.Bytes.{Bytes, bytes, bytes_eq, bytes_eq_sound, bytes_eq_refl, is_empty, index_byte}
use id_core.Keystore.{Crypto, PemBlock, rsa_key, KeyPair, load_from_file}
use id_core.DevKeyGen.Flags.{Options, read_argument, split_value, parse_flags}
use id_core.DevKeyGen.{
  Os, Stat, exists, absent, KeyWriter, default_out_dir, pem_type_private, check_absent,
  write_file_mode, make_files, generate, run,
}
use id_core.DevKeyGen.Keeps.{HasContent, run-keeps}
use id_core.DevKeyGen.Loads.{Decodes, run-loads}
use id_core.Tests.Toys.{toy_crypto, one_byte_key}

abbrev Files : Type 0
Files = List (Bytes × Bytes)

unfoldable find : Bytes → Files → Option Bytes
unfolding bytes_eq
find path [] = none
find path ((name, text) ∷ files) = if bytes_eq name path then some text else find path files

abbrev stat_of : Option Bytes → Stat
stat_of none = absent
stat_of (some text) = exists

abbrev disk : Os Files
disk = record {
  mkdir_all = λ dir mode f. (none, f);
  stat = λ path f. stat_of (find path f);
  write_file = λ path text mode f. (none, (path, text) ∷ f);
  chmod = λ path mode f. (none, f);
  join_path = λ dir name. dir ++ b'/' ∷ name;
}

stat_of_absent : (o : Option Bytes) → stat_of o ≡ absent → o ≡ none
stat_of_absent none h = refl
stat_of_absent (some text) h = cc

find-written : (path text : Bytes) (f : Files) → find path ((path, text) ∷ f) ≡ some text
unfolding find
find-written path text f = rw (bytes_eq_refl path) refl

find-elsewhere :
    (path other text : Bytes) (f : Files)
    → path ≢ other
    → find other ((path, text) ∷ f) ≡ find other f
unfolding find
find-elsewhere path other text f ne = elim (Bool-cases (bytes_eq path other)) [
  | inl same ↦ absurd (ne (bytes_eq_sound path other same))
  | inr apart ↦ rw apart refl
]

-- A path is its own file: this disk has no links.
disk-HasContent : HasContent disk (λ f path. find path f) (λ f path. path)
disk-HasContent = record {
  one_file = λ path other f same. ap (λ p. find p f) same;
  mkdir = λ dir path mode f. refl;
  stat = λ path f h. stat_of_absent (find path f) h;
  elsewhere = λ path other text mode f ne. find-elsewhere path other text f ne;
  written = λ path text mode f h. find-written path text f;
  chmod = λ path other mode f. refl;
  mkdir_file = λ dir path mode f. refl;
  write_file = λ path other text mode f. refl;
  chmod_file = λ path other mode f. refl;
}

abbrev plain_writer : KeyWriter toy_crypto
plain_writer = record { marshal_pkcs8 = λ k. ok (k ∷ []); pem_encode = λ b. b.content }

abbrev arguments : List Bytes
arguments = bytes "-out" ∷ bytes "keys" ∷ []

abbrev options : Options
options = record { out = bytes "keys"; force = false }

arguments_parsed :
    parse_flags arguments (record { out = default_out_dir; force = false }) ≡ some options
unfolding parse_flags read_argument split_value index_byte bytes_eq
arguments_parsed = refl

-- A public key is there already, so that the command gives up.
abbrev old_files : Files
old_files = (bytes "keys/signing.pub.pem", bytes "old") ∷ []

run-keeps_example :
    find (bytes "keys/signing.pub.pem") (run disk toy_crypto plain_writer arguments old_files).files
    ≡ some (bytes "old")
run-keeps_example =
    run-keeps disk (λ f path. find path f) (λ f path. path) disk-HasContent toy_crypto plain_writer
      (bytes "keys/signing.pub.pem") arguments options old_files (bytes "old") arguments_parsed refl
      (unfold find bytes_eq in refl)

-- A block as its type, each byte behind a 1, a 0, and the content.
unfoldable encode_block : Bytes → Bytes → Bytes
encode_block [] content = 0 ∷ content
encode_block (c ∷ name) content = 1 ∷ c ∷ encode_block name content

abbrev cons_name : ℕ → Option PemBlock → Option PemBlock
cons_name c none = none
cons_name c (some b) = some (record { type_name = c ∷ b.type_name; content = b.content })

unfoldable decode_block : Bytes → Option PemBlock
decode_block [] = none
decode_block (m ∷ []) = if m == 0 then some (record { type_name = []; content = [] }) else none
decode_block (m ∷ c ∷ s) =
    let rest = cons_name c (decode_block s) in
    if m == 0 then some (record { type_name = []; content = c ∷ s }) else rest

decode_block-encode_block :
    (name content : Bytes)
    → decode_block (encode_block name content)
      ≡ some (record { type_name = name; content = content })
unfolding decode_block encode_block
decode_block-encode_block [] [] = refl
decode_block-encode_block [] (d ∷ content) = refl
decode_block-encode_block (c ∷ name) content =
    ap (cons_name c) (decode_block-encode_block name content)

abbrev or_error : Option Bytes → Result Bytes Bytes
or_error none = err (bytes "no such file")
or_error (some text) = ok text

abbrev private_text : Bytes
private_text = encode_block (bytes "PRIVATE KEY") (7 ∷ [])

-- What the run leaves on an empty disk.
abbrev new_files : Files
new_files =
    (bytes "keys/signing.pub.pem", encode_block (bytes "PUBLIC KEY") (8 ∷ []))
    ∷ (bytes "keys/signing.pem", private_text)
    ∷ []

abbrev disk_crypto : Crypto
disk_crypto = record toy_crypto {
  read_file = λ path. or_error (find path new_files);
  pem_decode = decode_block;
}

abbrev block_writer : KeyWriter disk_crypto
block_writer = record {
  marshal_pkcs8 = λ k. ok (k ∷ []);
  pem_encode = λ b. encode_block b.type_name b.content;
}

block_writer-Decodes : Decodes disk_crypto block_writer
block_writer-Decodes = record {
  pem = λ der. decode_block-encode_block pem_type_private der;
  pkcs8 = λ key der h. subst (λ d. one_byte_key d ≡ ok (rsa_key key)) (ok-injective h) refl;
}

ran : run disk disk_crypto block_writer arguments [] ≡ record {
  code = 0;
  files = new_files;
  stdout = some (bytes "keys/signing.pem", bytes "keys/signing.pub.pem");
  stderr = none;
}
unfolding run parse_flags read_argument split_value index_byte bytes_eq generate is_empty
    check_absent find make_files write_file_mode
ran = refl

run-loads_example :
    (key : ℕ) × (pair : KeyPair disk_crypto) × (Path (Result Bytes ℕ) (ok 7) (ok key))
    × (load_from_file disk_crypto (bytes "keys/signing.pem") ≡ ok pair)
    × (pair.private_key ≡ some key)
run-loads_example =
    run-loads disk (λ f path. find path f) (λ f path. path) disk-HasContent disk_crypto block_writer
      arguments options [] block_writer-Decodes arguments_parsed (λ e. cc) (ap (λ e. e.code) ran)
      (λ text h. ap or_error (ap (λ e. find (bytes "keys/signing.pem") e.files) (sym ran) ∙ h))

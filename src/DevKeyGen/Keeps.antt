-- ===== src/DevKeyGen/Keeps.antt =====
-- Without -force, a file that is there stays as it is.
use id_core.Prelude.{
  ℕ, ◌≡◌, ◌≢◌, refl, sym, ◌∙◌, false, Option, none, some, List, [], ◌∷◌, Result, ok, err,
  Bool-cases, inl, inr, ap, All,
}
use id_core.Go.Bytes.{Bytes, is_empty}
use id_core.Keystore.{Crypto}
use id_core.DevKeyGen.Flags.{Options, parse_flags}
use id_core.DevKeyGen.{
  Os, Stat, exists, absent, unknown, KeyWriter, KeyFiles, GenError, default_out_dir, out_dir_mode,
  private_key_file_name, public_key_file_name, private_key_mode, public_key_mode, after_write,
  write_file_mode, refuse_present, check_absent, make_files, after_public, after_private,
  after_make, after_check, after_mkdir, generate, after_generate, run,
}

-- The contract of package os on the contents of files. `content` is none for a path without a file;
-- `file` is the file that a path names, once its elements `.` and `..` and its links are followed, so
-- that two paths may name one file. None of the calls changes what a path names.
pub record HasContent {F N : Type 0} (os : Os F) (content : F → Bytes → Option Bytes)
    (file : F → Bytes → N) : Type 0 where
  pub one_file :
      (path other : Bytes) (f : F) → file f path ≡ file f other → content f path ≡ content f other
  pub mkdir :
      (dir path : Bytes) (mode : ℕ) (f : F)
      → content (os.mkdir_all dir mode f).1 path ≡ content f path
  pub stat : (path : Bytes) (f : F) → os.stat path f ≡ absent → content f path ≡ none
  pub elsewhere :
      (path other text : Bytes) (mode : ℕ) (f : F)
      → file f path ≢ file f other
      → content (os.write_file path text mode f).1 other ≡ content f other
  pub written :
      (path text : Bytes) (mode : ℕ) (f : F)
      → (os.write_file path text mode f).0 ≡ none
      → content (os.write_file path text mode f).1 path ≡ some text
  pub chmod :
      (path other : Bytes) (mode : ℕ) (f : F)
      → content (os.chmod path mode f).1 other ≡ content f other
  pub mkdir_file :
      (dir path : Bytes) (mode : ℕ) (f : F) → file (os.mkdir_all dir mode f).1 path ≡ file f path
  pub write_file :
      (path other text : Bytes) (mode : ℕ) (f : F)
      → file (os.write_file path text mode f).1 other ≡ file f other
  pub chmod_file :
      (path other : Bytes) (mode : ℕ) (f : F) → file (os.chmod path mode f).1 other ≡ file f other

module _ {F N : Type 0} (os : Os F) (content : F → Bytes → Option Bytes) (file : F → Bytes → N)
    (has : HasContent os content file) where
  after_write-keeps :
      (path other : Bytes) (mode : ℕ) (r : Option Bytes × F)
      → content (after_write os path mode r).1 other ≡ content r.1 other
  after_write-keeps path other mode (some e, f) = refl
  after_write-keeps path other mode (none, f) = has.chmod path other mode f

  write_file_mode-keeps :
      (path other text : Bytes) (mode : ℕ) (f : F)
      → file f path ≢ file f other
      → content (write_file_mode os path text mode f).1 other ≡ content f other
  unfolding write_file_mode
  write_file_mode-keeps path other text mode f ne =
      after_write-keeps path other mode (os.write_file path text mode f)
      ∙ has.elsewhere path other text mode f ne

  after_write-file :
      (path other : Bytes) (mode : ℕ) (r : Option Bytes × F)
      → file (after_write os path mode r).1 other ≡ file r.1 other
  after_write-file path other mode (some e, f) = refl
  after_write-file path other mode (none, f) = has.chmod_file path other mode f

  pub write_file_mode-file :
      (path other text : Bytes) (mode : ℕ) (f : F)
      → file (write_file_mode os path text mode f).1 other ≡ file f other
  unfolding write_file_mode
  write_file_mode-file path other text mode f =
      after_write-file path other mode (os.write_file path text mode f)
      ∙ has.write_file path other text mode f

  -- Paths that name two files do so after a write.
  pub still_apart :
      (path public other text : Bytes) (mode : ℕ) (f : F)
      → file f public ≢ file f other
      → file (write_file_mode os path text mode f).1 public
        ≢ file (write_file_mode os path text mode f).1 other
  still_apart path public other text mode f ne same = ne (
      sym (write_file_mode-file path public text mode f)
      ∙ same
      ∙ write_file_mode-file path other text mode f)

  after_write-none :
      (path : Bytes) (mode : ℕ) (r : Option Bytes × F)
      → (after_write os path mode r).0 ≡ none
      → r.0 ≡ none
  after_write-none path mode (some e, f) h = h
  after_write-none path mode (none, f) h = refl

  pub write_file_mode-content :
      (path text : Bytes) (mode : ℕ) (f : F)
      → (write_file_mode os path text mode f).0 ≡ none
      → content (write_file_mode os path text mode f).1 path ≡ some text
  unfolding write_file_mode
  write_file_mode-content path text mode f h =
      after_write-keeps path path mode (os.write_file path text mode f)
      ∙ has.written path text mode f (after_write-none path mode (os.write_file path text mode f) h)

  refuse_present-none :
      (path : Bytes) (r : Stat) (rest : Option GenError)
      → refuse_present path r rest ≡ none
      → (r ≡ absent) × (rest ≡ none)
  refuse_present-none path exists rest h = cc
  refuse_present-none path absent rest h = (refl, h)
  refuse_present-none path (unknown x) rest h = cc

  check_absent-content :
      (paths : List Bytes) (f : F)
      → check_absent os paths f ≡ none
      → All (λ p. content f p ≡ none) paths
  unfolding check_absent
  check_absent-content [] f h = tt
  check_absent-content (p ∷ paths) f h =
      let (gone, rest) = refuse_present-none p (os.stat p f) (check_absent os paths f) h in
      (has.stat p f gone, check_absent-content paths f rest)

  module _ (c : Crypto) (w : KeyWriter c) (other : Bytes) where
    after_public-keeps :
        (path : Bytes) (r : Option Bytes × F)
        → content (after_public os c w path r).1 other ≡ content r.1 other
    after_public-keeps path (some e, f) = refl
    after_public-keeps path (none, f) = refl

    pub after_private-keeps :
        (priv public : Bytes) (k : KeyFiles os c w) (r : Option Bytes × F)
        → file r.1 public ≢ file r.1 other
        → content (after_private os c w priv public k r).1 other ≡ content r.1 other
    after_private-keeps priv public k (some e, f) ne = refl
    after_private-keeps priv public k (none, f) ne =
        after_public-keeps public (write_file_mode os public k.public_pem public_key_mode f)
        ∙ write_file_mode-keeps public other k.public_pem public_key_mode f ne

    after_make-keeps :
        (priv public : Bytes) (r : Result GenError (KeyFiles os c w)) (f : F)
        → file f priv ≢ file f other
        → file f public ≢ file f other
        → content (after_make os c w priv public r f).1 other ≡ content f other
    after_make-keeps priv public (err e) f not_priv not_public = refl
    after_make-keeps priv public (ok k) f not_priv not_public =
        after_private-keeps priv public k (write_file_mode os priv k.private_pem private_key_mode f)
          (still_apart priv public other k.private_pem private_key_mode f not_public)
        ∙ write_file_mode-keeps priv other k.private_pem private_key_mode f not_priv

    content-ne :
        (path text : Bytes) (f : F)
        → content f path ≡ none
        → content f other ≡ some text
        → file f path ≢ file f other
    content-ne path text f gone there same =
        let moved = has.one_file path other f same in cc (gone, there, moved)

    after_check-keeps :
        (priv public text : Bytes) (r : Option GenError) (f : F)
        → check_absent os (priv ∷ public ∷ []) f ≡ r
        → content f other ≡ some text
        → content (after_check os c w priv public r f).1 other ≡ some text
    after_check-keeps priv public text (some e) f h there = there
    after_check-keeps priv public text none f h there =
        let (no_priv, (no_public, _)) = check_absent-content (priv ∷ public ∷ []) f h in
        after_make-keeps priv public (make_files os c w) f (content-ne priv text f no_priv there)
          (content-ne public text f no_public there)
        ∙ there

    after_mkdir-keeps :
        (dir text : Bytes) (r : Option Bytes × F)
        → content r.1 other ≡ some text
        → content (after_mkdir os c w dir false r).1 other ≡ some text
    after_mkdir-keeps dir text (some e, f) there = there
    after_mkdir-keeps dir text (none, f) there =
        after_check-keeps (os.join_path dir private_key_file_name)
          (os.join_path dir public_key_file_name) text _ f refl there

    generate-keeps :
        (dir text : Bytes) (f : F)
        → content f other ≡ some text
        → content (generate os c w dir false f).1 other ≡ some text
    unfolding generate
    generate-keeps dir text f there = elim (Bool-cases (is_empty dir)) [
      | inl empty ↦ rw empty there
      | inr full ↦ rw full (
          after_mkdir-keeps dir text (os.mkdir_all dir out_dir_mode f)
            (has.mkdir dir other out_dir_mode f ∙ there))
    ]

    after_generate-files :
        (dir : Bytes) (r : Option GenError × F) → (after_generate os c w dir r).files ≡ r.1
    after_generate-files dir (some e, f) = refl
    after_generate-files dir (none, f) = refl

    -- Unless the flag -force is given, a run changes the contents of no file that was there before,
    -- whatever fails on the way.
    pub run-keeps :
        (args : List Bytes) (flags : Options) (f : F) (text : Bytes)
        → parse_flags args (record { out = default_out_dir; force = false }) ≡ some flags
        → flags.force ≡ false
        → content f other ≡ some text
        → content (run os c w args f).files other ≡ some text
    unfolding run
    run-keeps args flags f text parsed safe there =
        rw (parsed, safe)
          (ap (λ g. content g other)
              (after_generate-files flags.out (generate os c w flags.out false f))
            ∙ generate-keeps flags.out text f there)

-- ===== src/Db/Dsn/RoundTrip.antt =====
-- A connection string, read part by part, gives back the configuration.
use id_core.Prelude.{
  ℕ, ◌<◌, ◌≤◌, ◌≡◌, refl, sym, ap, ◌∙◌, Bool, false, some, [], ◌∷◌, ◌++◌, append_assoc, All, arith,
  ◌==◌, leb, ◌&&◌, ◌||◌,
}
use id_core.Go.Bytes.{Bytes, bytes, contains_byte}
use id_core.Go.Split.Laws.{Lacks, Lacks-append}
use id_core.Go.Strconv.{decimal}
use id_core.Go.Strconv.Laws.{decimal-Digits}
use id_core.Go.Url.{escape, keep_user_password, keep_host, keep_path, query_escape, url_string}
use id_core.Go.Url.Laws.{percent_decode, percent_decode-escape, escape-Lacks, query_unescape-escape}
use id_core.Config.{DatabaseConfig}
use id_core.Db.Dsn.Read.{cut, cut-append, read_dsn}
use id_core.Db.Dsn.{host_port, build_dsn}

-- The strings are byte strings.
abbrev pub IsBytes : Bytes → Type 0
IsBytes = All (λ c. c < 256)

Digits-IsBytes : (s : Bytes) → All (λ c. (b'0' ≤ c) × (c ≤ b'9')) s → IsBytes s
Digits-IsBytes [] h = tt
Digits-IsBytes (c ∷ s) h = (omega (arith, h.0.1), Digits-IsBytes s h.1)

IsBytes-append : (s t : Bytes) → IsBytes s → IsBytes t → IsBytes (s ++ t)
IsBytes-append [] t h k = k
IsBytes-append (c ∷ s) t h k = (h.0, IsBytes-append s t h.1 k)

pub record HasBytes (cfg : DatabaseConfig) : Type 0 where
  pub host : IsBytes cfg.host
  pub user : IsBytes cfg.user
  pub password : IsBytes cfg.password
  pub db_name : IsBytes cfg.db_name
  pub ssl_mode : IsBytes cfg.ssl_mode

host_port-IsBytes : (cfg : DatabaseConfig) → IsBytes cfg.host → IsBytes (host_port cfg)
host_port-IsBytes cfg h =
    IsBytes-append cfg.host (b':' ∷ decimal cfg.port) h
      (omega arith, Digits-IsBytes (decimal cfg.port) (decimal-Digits cfg.port))

decode_user : (s : Bytes) → IsBytes s → percent_decode (escape keep_user_password s) ≡ s
decode_user s h = percent_decode-escape keep_user_password s (unfold keep_user_password in refl) h

decode_host : (s : Bytes) → IsBytes s → percent_decode (escape keep_host s) ≡ s
decode_host s h = percent_decode-escape keep_host s (unfold keep_host in refl) h

decode_path : (s : Bytes) → IsBytes s → percent_decode (escape keep_path s) ≡ s
decode_path s h = percent_decode-escape keep_path s (unfold keep_path in refl) h

-- A byte that an encoded part does not hold: it is encoded itself, and no code holds it.
abbrev IsCoded : (ℕ → Bool) → ℕ → Type 0
IsCoded keep b =
    (keep b ≡ false)
    × ((b == b'%') ≡ false)
    × (((leb b'0' b && leb b b'9') || (leb b'A' b && leb b b'F')) ≡ false)

coded-Lacks :
    (keep : ℕ → Bool) (b : ℕ) (s : Bytes) → IsCoded keep b → IsBytes s → Lacks b (escape keep s)
coded-Lacks keep b s h small = escape-Lacks keep b s h.0 h.1 h.2 small

Lacks-cons : (b c : ℕ) (s : Bytes) → (c == b) ≡ false → Lacks b s → Lacks b (c ∷ s)
unfolding contains_byte
Lacks-cons b c s h k = rw h k

module _ (user password address path : Bytes) where
  abbrev userinfo : Bytes
  userinfo = escape keep_user_password user ++ b':' ∷ escape keep_user_password password

  abbrev authority : Bytes
  authority = userinfo ++ b'@' ∷ escape keep_host address

  abbrev before_query : Bytes
  before_query =
      bytes "postgres" ++ b':' ∷ b'/' ∷ b'/' ∷ (authority ++ b'/' ∷ escape keep_path path)

  layout :
      (query : Bytes)
      → url_string (record {
        scheme = bytes "postgres";
        user = user;
        password = password;
        host = address;
        path = b'/' ∷ path;
        raw_query = query;
      })
        ≡ before_query ++ b'?' ∷ query
  unfolding url_string escape keep_path
  layout query =
      ap (λ t. bytes "postgres://" ++ t)
        (sym (
          append_assoc authority (b'/' ∷ escape keep_path path) (b'?' ∷ query)
          ∙ append_assoc userinfo (b'@' ∷ escape keep_host address) _
          ∙ append_assoc (escape keep_user_password user)
              (b':' ∷ escape keep_user_password password) _))

  module _ (u : IsBytes user) (w : IsBytes password) (a : IsBytes address) (d : IsBytes path) where
    userinfo-Lacks : (b : ℕ) → IsCoded keep_user_password b → (b':' == b) ≡ false → Lacks b userinfo
    userinfo-Lacks b h colon =
        Lacks-append b (escape keep_user_password user) _
          (coded-Lacks keep_user_password b user h u)
          (Lacks-cons b b':' _ colon (coded-Lacks keep_user_password b password h w))

    authority-Lacks :
        (b : ℕ)
        → IsCoded keep_user_password b
        → IsCoded keep_host b
        → (b':' == b) ≡ false
        → (b'@' == b) ≡ false
        → Lacks b authority
    authority-Lacks b h k colon at =
        Lacks-append b userinfo _ (userinfo-Lacks b h colon)
          (Lacks-cons b b'@' _ at (coded-Lacks keep_host b address k a))

    before_query-Lacks : Lacks b'?' before_query
    unfolding contains_byte keep_user_password keep_host keep_path
    before_query-Lacks =
        Lacks-append b'?' (bytes "postgres://") (authority ++ b'/' ∷ escape keep_path path) refl (
          Lacks-append b'?' authority (b'/' ∷ escape keep_path path)
            (authority-Lacks b'?' (refl, refl, refl) (refl, refl, refl) refl refl)
            (Lacks-cons b'?' b'/' (escape keep_path path) refl
              (coded-Lacks keep_path b'?' path (refl, refl, refl) d)))

    cut-query : (query : Bytes) → cut b'?' (before_query ++ b'?' ∷ query) ≡ (before_query, query)
    cut-query query = cut-append b'?' before_query query before_query-Lacks

    cut-scheme :
        cut b':' before_query
        ≡ (bytes "postgres", b'/' ∷ b'/' ∷ (authority ++ b'/' ∷ escape keep_path path))
    unfolding contains_byte
    cut-scheme = cut-append b':' (bytes "postgres") _ refl

    cut-authority :
        cut b'/' (authority ++ b'/' ∷ escape keep_path path) ≡ (authority, escape keep_path path)
    unfolding keep_user_password keep_host
    cut-authority =
        cut-append b'/' authority _
          (authority-Lacks b'/' (refl, refl, refl) (refl, refl, refl) refl refl)

    cut-userinfo : cut b'@' authority ≡ (userinfo, escape keep_host address)
    unfolding keep_user_password
    cut-userinfo = cut-append b'@' userinfo _ (userinfo-Lacks b'@' (refl, refl, refl) refl)

    cut-user :
        cut b':' userinfo ≡ (escape keep_user_password user, escape keep_user_password password)
    unfolding keep_user_password
    cut-user =
        cut-append b':' (escape keep_user_password user) _
          (coded-Lacks keep_user_password b':' user (refl, refl, refl) u)

-- The connection string of a configuration of byte strings, read by the generic syntax of a URL, has
-- the user, the password, the host and port, the database and the sslmode of the configuration: no
-- byte of any of them is taken for a delimiter.
pub read_dsn-build_dsn :
    (cfg : DatabaseConfig)
    → HasBytes cfg
    → read_dsn (build_dsn cfg) ≡ record {
      scheme = bytes "postgres";
      user = cfg.user;
      password = cfg.password;
      address = host_port cfg;
      db_name = cfg.db_name;
      ssl_mode = some cfg.ssl_mode;
    }
unfolding read_dsn build_dsn
read_dsn-build_dsn cfg h =
    let host = host_port-IsBytes cfg h.host in
    let ssl =
      cut-append b'=' (bytes "sslmode") (query_escape cfg.ssl_mode)
        (unfold contains_byte in refl) in
    rw
      (
        layout cfg.user cfg.password (host_port cfg) cfg.db_name
            (bytes "sslmode=" ++ query_escape cfg.ssl_mode),
        cut-query cfg.user cfg.password (host_port cfg) cfg.db_name h.user h.password host
            h.db_name,
        cut-scheme cfg.user cfg.password (host_port cfg) cfg.db_name h.user h.password host
            h.db_name,
        cut-authority cfg.user cfg.password (host_port cfg) cfg.db_name h.user h.password host
            h.db_name,
        cut-userinfo cfg.user cfg.password (host_port cfg) cfg.db_name h.user h.password host
            h.db_name,
        cut-user cfg.user cfg.password (host_port cfg) cfg.db_name h.user h.password host h.db_name,
        ssl,
        decode_user cfg.user h.user,
        decode_user cfg.password h.password,
        decode_host (host_port cfg) host,
        decode_path cfg.db_name h.db_name,
        query_unescape-escape cfg.ssl_mode h.ssl_mode,
      )
      refl

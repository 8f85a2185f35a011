-- ===== src/Db/Dsn/Read.antt =====
-- The parts of a connection string, by the generic syntax of a URL.
use id_core.Prelude.{ℕ, ◌≡◌, Option, [], ◌∷◌, ◌++◌, arith, drop, ◌==◌, if◌then◌else◌}
use id_core.Go.Bytes.{Bytes, contains_byte}
use id_core.Go.Split.Laws.{Lacks}
use id_core.Go.Url.{query_unescape}
use id_core.Go.Url.Laws.{percent_decode}

-- What stands before and after the first byte `b`.
unfoldable pub cut : ℕ → Bytes → Bytes × Bytes
cut b [] = ([], [])
cut b (c ∷ s) = let (before, after) = cut b s in if c == b then ([], s) else (c ∷ before, after)

pub record DsnParts : Type 0 where
  pub scheme : Bytes
  pub user : Bytes
  pub password : Bytes
  pub address : Bytes
  pub db_name : Bytes
  pub ssl_mode : Option Bytes

-- The generic syntax of a URL: the query stands behind '?', the scheme before ':', the path behind the
-- first '/' after "//", the credentials before '@', and ':' is between user and password.
unfoldable pub read_dsn : Bytes → DsnParts
read_dsn dsn =
    let (url, query) = cut b'?' dsn in
    let (scheme, rest) = cut b':' url in
    let (authority, path) = cut b'/' (drop 2 rest) in
    let (userinfo, address) = cut b'@' authority in
    let (user, password) = cut b':' userinfo in
    record {
      scheme = scheme;
      user = percent_decode user;
      password = percent_decode password;
      address = percent_decode address;
      db_name = percent_decode path;
      ssl_mode = query_unescape (cut b'=' query).1;
    }

pub cut-append : (b : ℕ) (p s : Bytes) → Lacks b p → cut b (p ++ b ∷ s) ≡ (p, s)
unfolding cut contains_byte
cut-append b [] s h = ground arith
cut-append b (c ∷ p) s h = ground (arith, cut-append b p s)

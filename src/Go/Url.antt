-- ===== src/Go/Url.antt =====
-- net/url: percent-encoding by component, url.UserPassword, url.Values with one key, and the text of
-- a URL with a host.
pub mod Laws
use id_core.Prelude.{
  ℕ, ◌+◌, ◌-◌, ◌*◌, ◌/◌, ◌%◌, Bool, true, false, not, ◌&&◌, ◌||◌, Option, none, some, List, [], ◌∷◌,
  ◌++◌, ltb, leb, ◌==◌, if◌then◌else◌,
}
use id_core.Go.Bytes.{Bytes, bytes, contains_byte}

abbrev pub upper_hex_digit : ℕ → ℕ
upper_hex_digit d = if ltb d 10 then b'0' + d else b'A' + (d - 10)

-- escape, for a component of which the bytes that stay are known.
unfoldable pub escape : (ℕ → Bool) → Bytes → Bytes
escape keep [] = []
escape keep (c ∷ s) =
    let rest = escape keep s in
    if keep c then c ∷ rest else b'%' ∷ upper_hex_digit (c / 16) ∷ upper_hex_digit (c % 16) ∷ rest

-- Letters, digits, '-', '_', '.' and '~'.
abbrev pub is_unreserved : ℕ → Bool
is_unreserved c =
    (leb b'a' c && leb c b'z')
    || (leb b'A' c && leb c b'Z')
    || (leb b'0' c && leb c b'9')
    || c == b'-'
    || c == b'_'
    || c == b'.'
    || c == b'~'

abbrev pub one_of : Bytes → ℕ → Bool
one_of s c = contains_byte c s

-- shouldEscape, the other way round, for encodeUserPassword, encodeHost, encodePath and
-- encodeQueryComponent (where a space becomes '+').
unfoldable pub keep_user_password : ℕ → Bool
unfolding contains_byte
keep_user_password c = is_unreserved c || one_of (bytes "$&+,;=") c

unfoldable pub keep_host : ℕ → Bool
unfolding contains_byte
keep_host c = is_unreserved c || one_of (bytes "!$&'()*+,;=:[]<>\"") c

unfoldable pub keep_path : ℕ → Bool
unfolding contains_byte
keep_path c = is_unreserved c || one_of (bytes "$&+,/:;=@") c

unfoldable pub query_escape : Bytes → Bytes
query_escape [] = []
query_escape (c ∷ s) =
    let rest = query_escape s in
    if is_unreserved c
    then c ∷ rest
    else if c == b' '
    then b'+' ∷ rest
    else b'%' ∷ upper_hex_digit (c / 16) ∷ upper_hex_digit (c % 16) ∷ rest

abbrev pub is_hex : ℕ → Bool
is_hex c = (leb b'0' c && leb c b'9') || (leb b'a' c && leb c b'f') || (leb b'A' c && leb c b'F')

abbrev pub unhex : ℕ → ℕ
unhex c = if leb c b'9' then c - b'0' else if leb c b'F' then c - b'A' + 10 else c - b'a' + 10

abbrev pub cons_some : ℕ → Option Bytes → Option Bytes
cons_some c none = none
cons_some c (some s) = some (c ∷ s)

abbrev pub plus_to_space : ℕ → ℕ
plus_to_space c = if c == b'+' then b' ' else c

-- url.QueryUnescape; `none` is an error.
unfoldable pub query_unescape : Bytes → Option Bytes
query_unescape [] = some []
query_unescape (c ∷ []) = if c == b'%' then none else some (plus_to_space c ∷ [])
query_unescape (c ∷ a ∷ []) =
    let rest = cons_some (plus_to_space c) (query_unescape (a ∷ [])) in
    if c == b'%' then none else rest
query_unescape (c ∷ a ∷ b ∷ s) =
    let escaped = cons_some (unhex a * 16 + unhex b) (query_unescape s) in
    let plain = cons_some (plus_to_space c) (query_unescape (a ∷ b ∷ s)) in
    if c == b'%' then (if is_hex a && is_hex b then escaped else none) else plain

pub record UrlParts : Type 0 where
  pub scheme : Bytes
  pub user : Bytes
  pub password : Bytes
  pub host : Bytes
  pub path : Bytes
  pub raw_query : Bytes

-- URL.String for a URL with a user, a host, a path that begins with '/', and a query.
unfoldable pub url_string : UrlParts → Bytes
url_string u =
    u.scheme
    ++ (bytes "://"
        ++ (escape keep_user_password u.user
            ++ (b':'
                ∷ (escape keep_user_password u.password
                    ++ (b'@'
                        ∷ (escape keep_host u.host
                            ++ (escape keep_path u.path ++ (b'?' ∷ u.raw_query))))))))

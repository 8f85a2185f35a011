-- ===== src/Server/Paths.antt =====
-- The path of a URL, read off its text.
use id_core.Prelude.{
  ◌==◌, ==_false, ◌&&◌, if◌then◌else◌, [], ◌∷◌, ◌++◌, append_assoc, ◌≡◌, ◌≢◌, refl, sym, ap, ◌∙◌,
  inl, inr, Bool-cases, All,
}
use id_core.Go.Bytes.{Bytes}

-- What follows the first `//`.
unfoldable pub after_scheme : Bytes → Bytes
after_scheme [] = []
after_scheme (a ∷ []) = []
after_scheme (a ∷ b ∷ s) =
    let rest = after_scheme (b ∷ s) in if a == b'/' && b == b'/' then s else rest

-- What follows the host.
unfoldable pub after_host : Bytes → Bytes
after_host [] = []
after_host (a ∷ s) = let rest = after_host s in if a == b'/' then a ∷ s else rest

-- The path of an absolute URL without a query and a fragment.
abbrev pub path_of : Bytes → Bytes
path_of url = after_host (after_scheme url)

-- `scheme://` and the rest.
abbrev pub IsAbsolute : Bytes → Type 0
IsAbsolute url =
    (scheme : Bytes) × (rest : Bytes) × All (λ a. a ≢ b'/') scheme
    × (url ≡ scheme ++ b':' ∷ b'/' ∷ b'/' ∷ rest)

after_scheme-append :
    (scheme rest : Bytes)
    → All (λ a. a ≢ b'/') scheme
    → after_scheme (scheme ++ b':' ∷ b'/' ∷ b'/' ∷ rest) ≡ rest
unfolding after_scheme
after_scheme-append [] rest h = refl
after_scheme-append (a ∷ []) rest h = rw (==_false a b'/' h.0) refl
after_scheme-append (a ∷ b ∷ s) rest h =
    rw (==_false a b'/' h.0) (after_scheme-append (b ∷ s) rest h.1)

after_host-append : (s name : Bytes) → after_host (s ++ b'/' ∷ name) ≡ after_host s ++ b'/' ∷ name
unfolding after_host
after_host-append [] name = refl
after_host-append (a ∷ s) name = elim (Bool-cases (a == b'/')) [
  | inl slash ↦ rw slash refl
  | inr other ↦ rw other (after_host-append s name)
]

after_scheme-grows :
    (issuer more : Bytes)
    → IsAbsolute issuer
    → after_scheme (issuer ++ more) ≡ after_scheme issuer ++ more
after_scheme-grows issuer more (scheme, rest, plain, form) =
    ap (λ s. after_scheme (s ++ more)) form
    ∙ ap after_scheme (append_assoc scheme (b':' ∷ b'/' ∷ b'/' ∷ rest) more)
    ∙ after_scheme-append scheme (rest ++ more) plain
    ∙ ap (λ s. s ++ more) (sym (after_scheme-append scheme rest plain) ∙ ap after_scheme (sym form))

-- A path at the end of a URL is at the end of the path of the URL.
pub path_of-append :
    (issuer name : Bytes)
    → IsAbsolute issuer
    → path_of (issuer ++ b'/' ∷ name) ≡ path_of issuer ++ b'/' ∷ name
path_of-append issuer name absolute =
    ap after_host (after_scheme-grows issuer (b'/' ∷ name) absolute)
    ∙ after_host-append (after_scheme issuer) name

-- ===== src/Oidc/Jwks/Announced.antt =====
-- What the JWKS handler announces, and what it does not depend on.
use id_core.Prelude.{
  ℕ, ◌+◌, Option, none, some, List, [], ◌∷◌, ◌++◌, map, ◌≡◌, refl, sym, ap, subst, ◌∙◌,
  append_assoc, append-nil, ok, map_err, Yields, >>=-Yields, ok-injective, map_err-Yields,
  >>=-congr,
}
use id_core.Go.Bytes.{Bytes}
use id_core.Go.Context.{background}
use id_core.Http.{Request}
use id_core.Keystore.{Crypto, KeyPair, KeySet}
use id_core.Oidc.Discovery.{serve_http}
use id_core.Oidc.Jwks.{
  Jwx, JwksHandler, key_failed, add_failed, to_jwk, add_keys, build_set, new_jwks, serve_jwks,
}

-- The same conditional replies as those of the discovery handler.
pub serve_jwks-serve_http :
    (h : JwksHandler) (r : Request)
    → serve_jwks h r ≡ serve_http (record { body = h.body; etag = h.etag; cache = h.cache }) r
unfolding serve_jwks serve_http
serve_jwks-serve_http h r = refl

module _ (c : Crypto) (x : Jwx c.PublicKey) where
  -- What a key set shows of a pair: its id and its public key.
  abbrev pub public_view : Option (KeyPair c) → Option (Bytes × Option c.PublicKey)
  public_view none = none
  public_view (some kp) = some (kp.kid, kp.public_key)

  to_jwk-public :
      (kp other : Option (KeyPair c))
      → public_view kp ≡ public_view other
      → to_jwk c x kp ≡ to_jwk c x other
  unfolding to_jwk
  to_jwk-public none none e = refl
  to_jwk-public none (some l) e = cc
  to_jwk-public (some k) none e = cc
  to_jwk-public (some k) (some l) e =
      let kids : k.kid ≡ l.kid = cc in
      let keys : k.public_key ≡ l.public_key = cc in rw (kids, keys) refl

  add_keys-public :
      (i : ℕ) (keys others : List (Option (KeyPair c))) (set : x.Set)
      → map public_view keys ≡ map public_view others
      → add_keys c x i keys set ≡ add_keys c x i others set
  unfolding add_keys
  add_keys-public i [] [] set e = refl
  add_keys-public i [] (l ∷ others) set e = cc
  add_keys-public i (k ∷ keys) [] set e = cc
  add_keys-public i (k ∷ keys) (l ∷ others) set e =
      let heads : public_view k ≡ public_view l = cc in
      let tails : map public_view keys ≡ map public_view others = cc in
      rw (to_jwk-public k l heads) (
        >>=-congr (map_err (key_failed i) (to_jwk c x l)) _ _ λ key.
          >>=-congr (map_err (λ e. key_failed i (add_failed e)) (x.add_key key set)) _ _
            λ set'. add_keys-public (i + 1) keys others set' tails)

  -- Key sets whose keys agree in id and public key, one by one, have the same handler or the same
  -- error: nothing of a private key can be seen in a reply, whatever the library for the encoding
  -- does.
  pub new_jwks-public :
      (base64_url : Bytes → Bytes) (ks other : KeySet c) (keys others : List (Option (KeyPair c)))
      (max_age : ℕ)
      → ks.verifying background ≡ ok keys
      → other.verifying background ≡ ok others
      → map public_view keys ≡ map public_view others
      → new_jwks c x base64_url (some ks) max_age ≡ new_jwks c x base64_url (some other) max_age
  unfolding new_jwks build_set
  new_jwks-public base64_url ks other keys others max_age e f same =
      rw (e, f, add_keys-public 0 keys others x.new_set same) refl

-- The contract of a jwk.Set: a new one is empty, and AddKey appends.
pub record KeepsOrder {P : Type 0} (x : Jwx P) (contents : x.Set → List x.Key) : Type 0 where
  pub empty : contents x.new_set ≡ []
  pub appends :
      (key : x.Key) (set late : x.Set)
      → x.add_key key set ≡ ok late
      → contents late ≡ contents set ++ key ∷ []

module _ (c : Crypto) (x : Jwx c.PublicKey) where
  -- The keys of the set, one for each pair, in order.
  abbrev pub Announces : List (Option (KeyPair c)) → List x.Key → Type 0
  Announces [] [] = Unit
  Announces (kp ∷ keys) (key ∷ js) = (to_jwk c x kp ≡ ok key) × Announces keys js
  Announces _ _ = ⊥

  module _ (contents : x.Set → List x.Key) (order : KeepsOrder x contents) where
    add_keys-Announces :
        (i : ℕ) (keys : List (Option (KeyPair c))) (set : x.Set)
        → Yields
            (λ late. (js : List x.Key) × Announces keys js × (contents late ≡ contents set ++ js))
            (add_keys c x i keys set)
    unfolding add_keys
    add_keys-Announces i [] set =
        λ late h. ([], tt, ap contents (sym (ok-injective h)) ∙ sym (append-nil (contents set)))
    add_keys-Announces i (kp ∷ keys) set =
        let P : x.Set → Type 0 = λ late.
          (js : List x.Key) × Announces (kp ∷ keys) js × (contents late ≡ contents set ++ js) in
        >>=-Yields P (map_err (key_failed i) (to_jwk c x kp)) _ λ key key_ok.
          >>=-Yields P (map_err (λ e. key_failed i (add_failed e)) (x.add_key key set)) _
            λ mid mid_ok late h.
              let (js, each, whole) = add_keys-Announces (i + 1) keys mid late h in
              let added =
                order.appends key set mid (map_err-Yields _ (x.add_key key set) mid mid_ok) in
              (
                key ∷ js,
                (map_err-Yields _ (to_jwk c x kp) key key_ok, each),
                whole ∙ ap (λ l. l ++ js) added ∙ append_assoc (contents set) (key ∷ []) js,
              )

    -- A set that is built holds one key for each pair, in the order of the pairs, and nothing else.
    pub build_set-Announces :
        (keys : List (Option (KeyPair c))) (set : x.Set)
        → build_set c x keys ≡ ok set
        → Announces keys (contents set)
    unfolding build_set
    build_set-Announces keys set h =
        let (js, each, whole) = add_keys-Announces 0 keys x.new_set set h in
        subst (Announces keys) (sym (whole ∙ ap (λ l. l ++ js) order.empty)) each

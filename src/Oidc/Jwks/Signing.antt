-- ===== src/Oidc/Jwks/Signing.antt =====
-- From the key store to the reply of /jwks.
use id_core.Prelude.{
  ℕ, some, List, [], ◌∷◌, ◌≡◌, refl, sym, ap, subst, ◌∙◌, ok, map_err, Yields, >>=-Yields,
  ok-Yields, ok-injective, map_err-Yields,
}
use id_core.Go.Bytes.{Bytes, bytes}
use id_core.Go.Context.{Context, background}
use id_core.Keystore.{Crypto, KeyPair, KeySet, OidcKeyConfig, Source, init}
use id_core.Keystore.Published.{init-Published}
use id_core.Oidc.Jwks.{
  Jwx, JwksHandler, import_failed, verifying_failed, marshal_failed, import_public, to_jwk,
  build_set, new_jwks,
}
use id_core.Oidc.Jwks.Announced.{KeepsOrder, Announces, build_set-Announces}

module _ (c : Crypto) (x : Jwx c.PublicKey) (contents : x.Set → List x.Key) where
  -- The fields of a key, set one after the other.
  abbrev set_all : List (Bytes × Bytes) → x.Key → x.Key
  set_all [] key = key
  set_all ((name, text) ∷ fields) key = set_all fields (x.set_field name text key)

  -- A key of the type RSA for signatures by RS256.
  abbrev pub signing_key : Bytes → x.Key → x.Key
  signing_key kid = set_all (
      (bytes "kty", bytes "RSA")
      ∷ (bytes "alg", bytes "RS256")
      ∷ (bytes "use", bytes "sig")
      ∷ (bytes "kid", kid)
      ∷ [])

  -- The set of one key, the public key of `key` with the four fields, encoded as `body`.
  pub record AnnouncesOne (key : c.PrivateKey) (kid : Bytes) (body : Bytes) : Type 0 where
    pub imported : x.Key
    pub set : x.Set
    pub import : x.import_key (c.public_of key) ≡ ok imported
    pub single : contents set ≡ signing_key kid imported ∷ []
    pub encoded : x.marshal_set set ≡ ok body

  import_public-fields :
      (kid : Bytes) (p : c.PublicKey) (j : x.Key)
      → import_public c x kid (some p) ≡ ok j
      → (k : x.Key) × (x.import_key p ≡ ok k) × (j ≡ signing_key kid k)
  import_public-fields kid p j h =
      let P : x.Key → Type 0 =
        λ j. (k : x.Key) × (x.import_key p ≡ ok k) × (j ≡ signing_key kid k) in
      (>>=-Yields P (map_err import_failed (x.import_key p)) _
          λ k k_ok. ok-Yields P _ (k, map_err-Yields _ (x.import_key p) k k_ok, refl))
        j h

  to_jwk-fields :
      (pair : KeyPair c) (p : c.PublicKey) (j : x.Key)
      → pair.public_key ≡ some p
      → to_jwk c x (some pair) ≡ ok j
      → (k : x.Key) × (x.import_key p ≡ ok k) × (j ≡ signing_key pair.kid k)
  unfolding to_jwk
  to_jwk-fields pair p j e h =
      import_public-fields pair.kid p j (subst (λ o. import_public c x pair.kid o ≡ ok j) e h)

  Announces-one :
      (pair : KeyPair c) (js : List x.Key)
      → Announces c x (some pair ∷ []) js
      → (j : x.Key) × (js ≡ j ∷ []) × (to_jwk c x (some pair) ≡ ok j)
  Announces-one pair [] h = absurd h
  Announces-one pair (j ∷ []) h = (j, refl, h.0)
  Announces-one pair (j ∷ k ∷ js) h = absurd h.1

  built-One :
      (order : KeepsOrder x contents) (key : c.PrivateKey) (pair : KeyPair c) (set : x.Set)
      (body : Bytes)
      → pair.public_key ≡ some (c.public_of key)
      → build_set c x (some pair ∷ []) ≡ ok set
      → x.marshal_set set ≡ ok body
      → AnnouncesOne key pair.kid body
  built-One order key pair set body public built encoded =
      let (j, one, made) =
        Announces-one pair (contents set)
          (build_set-Announces c x contents order (some pair ∷ []) set built) in
      let (k, imported, fields) = to_jwk-fields pair (c.public_of key) j public made in
      record {
        imported = k;
        set = set;
        import = imported;
        single = one ∙ ap (λ j. j ∷ []) fields;
        encoded = encoded;
      }

  new_jwks-One :
      (order : KeepsOrder x contents) (base64_url : Bytes → Bytes) (ks : KeySet c) (max_age : ℕ)
      (key : c.PrivateKey) (pair : KeyPair c)
      → pair.public_key ≡ some (c.public_of key)
      → ks.verifying background ≡ ok (some pair ∷ [])
      → Yields (λ h. AnnouncesOne key pair.kid h.body) (new_jwks c x base64_url (some ks) max_age)
  unfolding new_jwks
  new_jwks-One order base64_url ks max_age key pair public verifying =
      let P : JwksHandler → Type 0 = λ h. AnnouncesOne key pair.kid h.body in
      >>=-Yields P (map_err verifying_failed (ks.verifying background)) _ λ keys keys_ok.
        let one : keys ≡ some pair ∷ [] = ok-injective (
          sym (map_err-Yields verifying_failed (ks.verifying background) keys keys_ok)
          ∙ verifying) in
        >>=-Yields P (build_set c x keys) _ λ set set_ok.
          >>=-Yields P (map_err marshal_failed (x.marshal_set set)) _ λ body body_ok.
            ok-Yields P _ (
              built-One order key pair set body public
                (subst (λ k. build_set c x k ≡ ok set) one set_ok)
                (map_err-Yields marshal_failed (x.marshal_set set) body body_ok))

  -- The handler of an initialised key store announces one key, that of the private key which signs:
  -- its public key under the id of the key that signs, with kty RSA, alg RS256 and use sig.
  pub new_jwks-init :
      (order : KeepsOrder x contents) (base64_url : Bytes → Bytes) (cfg : OidcKeyConfig)
      (ks : KeySet c) (src : Source) (max_age : ℕ) (h : JwksHandler)
      → init c cfg ≡ ok (ks, src)
      → new_jwks c x base64_url (some ks) max_age ≡ ok h
      → (pair : KeyPair c) (ctx : Context) → ks.active ctx ≡ ok pair
      → (key : c.PrivateKey) × (pair.private_key ≡ some key) × AnnouncesOne key pair.kid h.body
  new_jwks-init order base64_url cfg ks src max_age h started made pair ctx signs =
      let p = init-Published c cfg ks src started in
      let public = p.pair_of.public_key in
      let private = p.pair_of.private_key in
      let same : p.pair ≡ pair = ok-injective (sym (p.active ctx) ∙ signs) in
      subst (λ k. (key : c.PrivateKey) × (k.private_key ≡ some key) × AnnouncesOne key k.kid h.body)
        same
        (
          p.key,
          private,
          new_jwks-One order base64_url ks max_age p.key p.pair public (p.verifying background) h
              made,
        )

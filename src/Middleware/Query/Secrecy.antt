-- ===== src/Middleware/Query/Secrecy.antt =====
-- What the redaction of a query string hides and what it keeps.
use id_core.Prelude.{
  ℕ, zero, suc, true, false, some, List, [], ◌∷◌, ◌++◌, map, ◌≡◌, refl, sym, ap, ◌∙◌, ◌≢◌, ◌⊎◌, inl,
  inr, ◌↔◌, arith, take, All, Bool-cases, Option-cases,
}
use id_core.Go.Bytes.{Bytes, index_byte, contains_byte}
use id_core.Go.Split.{split, join}
use id_core.Go.Split.Laws.{
  Lacks, Lacks-append, Lacks-take, split-ne-nil, split-Lacks, split-join-All,
}
use id_core.Logger.Redact.{is_field_key_to_redact, redacted_value}
use id_core.Middleware.Query.{param_key, has_value, decoded_key, redact_param, redact_query_string}

-- Cutting at the first '=' and putting another value behind it moves no '='.
index_take :
    (p r : Bytes) (i : ℕ)
    → index_byte p b'=' ≡ some i
    → (index_byte (take i p ++ (b'=' ∷ r)) b'=' ≡ some i)
      × (take i (take i p ++ (b'=' ∷ r)) ≡ take i p)
unfolding index_byte
index_take [] r i h = cc
index_take (c ∷ p) r zero h = ground arith
index_take (c ∷ p) r (suc i) h = ground (arith, index_take p r i)

param_key-found : (p : Bytes) (i : ℕ) → index_byte p b'=' ≡ some i → param_key p ≡ take i p
unfolding param_key
param_key-found p i h = ground arith

has_value-found : (p : Bytes) (i : ℕ) → index_byte p b'=' ≡ some i → has_value p ≡ true
unfolding has_value
has_value-found p i h = ground arith

new_value :
    (p r : Bytes)
    → has_value p ≡ true
    → (param_key (param_key p ++ (b'=' ∷ r)) ≡ param_key p)
      × (has_value (param_key p ++ (b'=' ∷ r)) ≡ true)
unfolding param_key has_value
new_value p r h = elim (Option-cases (index_byte p b'=')) [
  | inl missing ↦ absurd (ground arith)
  | inr (i, found) ↦
      let (same, cut) = index_take p r i found in
      rw (param_key-found p i found) (
        param_key-found (take i p ++ (b'=' ∷ r)) i same ∙ cut,
        has_value-found (take i p ++ (b'=' ∷ r)) i same,
      )
]

no_value : (p : Bytes) → has_value p ≡ false → param_key p ≡ p
unfolding param_key has_value
no_value p h = ground arith

param_key-Lacks : (b : ℕ) (p : Bytes) → Lacks b p → Lacks b (param_key p)
unfolding param_key
param_key-Lacks b p h = elim (Option-cases (index_byte p b'=')) [
  | inl missing ↦ rw (missing, param_key) h
  | inr (i, found) ↦ rw (found, param_key) (Lacks-take b i p h)
]

redacted_value-Lacks : Lacks b'&' (b'=' ∷ redacted_value)
unfolding contains_byte
redacted_value-Lacks = refl

module _ (unicode_lower : ℕ → ℕ) where
  abbrev pub IsSecret : Bytes → Type 0
  IsSecret p = is_field_key_to_redact unicode_lower (decoded_key (param_key p)) ≡ true

  -- The same parameter, or two values of one secret key.
  abbrev pub AlikeParam : Bytes → Bytes → Type 0
  AlikeParam p q =
      (p ≡ q) ⊎ (IsSecret p × (param_key p ≡ param_key q) × (has_value p ≡ has_value q))

  abbrev pub AlikeParams : List Bytes → List Bytes → Type 0
  AlikeParams [] [] = Unit
  AlikeParams (p ∷ ps) (q ∷ qs) = AlikeParam p q × AlikeParams ps qs
  AlikeParams _ _ = ⊥

  -- The redaction of a parameter keeps its key and its '='.
  redact_param_shape :
      (p : Bytes)
      → (param_key (redact_param unicode_lower p) ≡ param_key p)
        × (has_value (redact_param unicode_lower p) ≡ has_value p)
  unfolding redact_param
  redact_param_shape p = ground (arith, new_value p redacted_value, no_value p)

  redact_param-Lacks : (p : Bytes) → Lacks b'&' p → Lacks b'&' (redact_param unicode_lower p)
  unfolding redact_param
  redact_param-Lacks p h = ground (
    arith,
    Lacks-append b'&' (param_key p) (b'=' ∷ redacted_value),
    redacted_value-Lacks,
    param_key-Lacks b'&' p h,
  )

  -- A parameter that is no secret stays as it is.
  redact_param_plain :
      (p : Bytes)
      → is_field_key_to_redact unicode_lower (decoded_key (param_key p)) ≡ false
      → redact_param unicode_lower p ≡ p
  unfolding redact_param
  redact_param_plain p miss = rw miss

  redact_param-to :
      (p q : Bytes) → redact_param unicode_lower p ≡ redact_param unicode_lower q → AlikeParam p q
  redact_param-to p q e =
      let (key_p, value_p) = redact_param_shape p in
      let (key_q, value_q) = redact_param_shape q in
      let keys : param_key p ≡ param_key q = sym key_p ∙ ap param_key e ∙ key_q in
      let values : has_value p ≡ has_value q = sym value_p ∙ ap has_value e ∙ value_q in
      elim (Bool-cases (is_field_key_to_redact unicode_lower (decoded_key (param_key p)))) [
        | inl hit ↦ inr (hit, keys, values)
        | inr miss ↦
            inl (sym (redact_param_plain p miss) ∙ e ∙ redact_param_plain q (rw keys at miss))
      ]

  redact_param-from :
      (p q : Bytes) → AlikeParam p q → redact_param unicode_lower p ≡ redact_param unicode_lower q
  unfolding redact_param
  redact_param-from p q (inl same) = rw same
  redact_param-from p q (inr (hit, keys, values)) = rw (← keys, ← values, hit)

  params-to :
      (ps qs : List Bytes)
      → map (redact_param unicode_lower) ps ≡ map (redact_param unicode_lower) qs
      → AlikeParams ps qs
  params-to [] [] e = tt
  params-to [] (q ∷ qs) e = cc
  params-to (p ∷ ps) [] e = cc
  params-to (p ∷ ps) (q ∷ qs) e = (redact_param-to p q (cc), params-to ps qs (cc))

  params-from :
      (ps qs : List Bytes)
      → AlikeParams ps qs
      → map (redact_param unicode_lower) ps ≡ map (redact_param unicode_lower) qs
  params-from [] [] h = refl
  params-from [] (q ∷ qs) h = absurd h
  params-from (p ∷ ps) [] h = absurd h
  params-from (p ∷ ps) (q ∷ qs) h = cc (redact_param-from p q h.0, params-from ps qs h.1)

  map-Lacks :
      (ps : List Bytes)
      → All (Lacks b'&') ps
      → All (Lacks b'&') (map (redact_param unicode_lower) ps)
  map-Lacks [] h = tt
  map-Lacks (p ∷ ps) h = (redact_param-Lacks p h.0, map-Lacks ps h.1)

  map-ne-nil : (ps : List Bytes) → ps ≢ [] → map (redact_param unicode_lower) ps ≢ []
  map-ne-nil [] ne e = ne refl
  map-ne-nil (p ∷ ps) ne e = cc

  -- The redacted query splits into the redacted parameters.
  split-redact :
      (raw : Bytes)
      → split (redact_query_string unicode_lower raw) b'&'
        ≡ map (redact_param unicode_lower) (split raw b'&')
  unfolding redact_query_string
  split-redact raw =
      split-join-All (map (redact_param unicode_lower) (split raw b'&')) b'&'
        (map-ne-nil (split raw b'&') (split-ne-nil raw b'&'))
        (map-Lacks (split raw b'&') (split-Lacks raw b'&'))

  -- Two query strings have the same redaction exactly when they have as many parameters and, one by
  -- one, the same parameter or the same secret key with or without a value; so the values of secret
  -- keys, and nothing else, are hidden. A key is secret if, once decoded, it is on the deny-list.
  pub redact_query_string-Alike_iff :
      (raw other : Bytes)
      → (redact_query_string unicode_lower raw ≡ redact_query_string unicode_lower other)
        ↔ AlikeParams (split raw b'&') (split other b'&')
  redact_query_string-Alike_iff raw other = (
    λ e.
        params-to (split raw b'&') (split other b'&')
          (sym (split-redact raw) ∙ ap (λ s. split s b'&') e ∙ split-redact other),
    λ h.
        unfold redact_query_string in
        ap (λ ps. join ps b'&') (params-from (split raw b'&') (split other b'&') h),
  )

  self_alike : (p : Bytes) → AlikeParam (redact_param unicode_lower p) p
  self_alike p =
      let (key, value) = redact_param_shape p in
      elim (Bool-cases (is_field_key_to_redact unicode_lower (decoded_key (param_key p)))) [
        | inl hit ↦ inr (rw key hit, key, value)
        | inr miss ↦ inl (redact_param_plain p miss)
      ]

  AlikeParams-self : (ps : List Bytes) → AlikeParams (map (redact_param unicode_lower) ps) ps
  AlikeParams-self [] = tt
  AlikeParams-self (p ∷ ps) = (self_alike p, AlikeParams-self ps)

  -- The redacted query string has the parameters of the query string in their order, but for the
  -- values of secret keys; redacting it once more changes nothing.
  redact_query_string_keeps :
      (raw : Bytes)
      → AlikeParams (split (redact_query_string unicode_lower raw) b'&') (split raw b'&')
        × (redact_query_string unicode_lower (redact_query_string unicode_lower raw)
            ≡ redact_query_string unicode_lower raw)
  redact_query_string_keeps raw =
      let alike : AlikeParams (split (redact_query_string unicode_lower raw) b'&')
          (split raw b'&') =
        rw split-redact (AlikeParams-self (split raw b'&')) in
      (alike, (redact_query_string-Alike_iff (redact_query_string unicode_lower raw) raw).1 alike)

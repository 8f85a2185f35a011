-- ===== src/Logger/Redact/Secrecy.antt =====
-- What RedactMap hides and what it keeps.
use id_core.Prelude.{
  ℕ, true, Option, none, some, ◌≡◌, refl, ap, ◌⊎◌, inl, inr, ◌↔◌, arith, if◌then◌else◌, Bool-cases,
}
use id_core.Go.Bytes.{Bytes}
use id_core.Go.Any.{Any, str, object, nil_slice, array, Items, nil, cons, Fields, end, field}
use id_core.Logger.Redact.{
  redacted_value, is_field_key_to_redact, redact_value, redact_items, redact_fields, redact_map,
}

module _ (unicode_lower : ℕ → ℕ) where
  -- Equal, but for what stands under a key of the deny-list. A nil slice counts as an empty one.
  abbrev mutual
    pub Alike : Any → Any → Type 0
    Alike (object fs) (object gs) = AlikeFields fs gs
    Alike (array xs) (array ys) = AlikeItems xs ys
    Alike (array nil) nil_slice = Unit
    Alike nil_slice (array nil) = Unit
    Alike v w = v ≡ w

    pub AlikeItems : Items → Items → Type 0
    AlikeItems nil nil = Unit
    AlikeItems (cons x xs) (cons y ys) = Alike x y × AlikeItems xs ys
    AlikeItems _ _ = ⊥

    pub AlikeFields : Fields → Fields → Type 0
    AlikeFields end end = Unit
    AlikeFields (field k v fs) (field j w gs) =
        (k ≡ j) × ((is_field_key_to_redact unicode_lower k ≡ true) ⊎ Alike v w) × AlikeFields fs gs
    AlikeFields _ _ = ⊥

  mutual
    unfolding redact_value

    redact-Alike :
        (v w : Any) → Alike v w → redact_value unicode_lower v ≡ redact_value unicode_lower w
    redact-Alike (object fs) (object gs) h = ap object (redact_fields-Alike fs gs h)
    redact-Alike (array xs) (array ys) h = ap array (redact_items-Alike xs ys h)
    redact-Alike (array nil) nil_slice h = refl
    redact-Alike nil_slice (array nil) h = refl
    redact-Alike v w h = ap (redact_value unicode_lower) h

    redact_items-Alike :
        (xs ys : Items)
        → AlikeItems xs ys
        → redact_items unicode_lower xs ≡ redact_items unicode_lower ys
    redact_items-Alike nil nil h = refl
    redact_items-Alike (cons x xs) (cons y ys) h =
        cc (redact-Alike x y h.0, redact_items-Alike xs ys h.1)
    redact_items-Alike _ _ h = absurd h

    redact_fields-Alike :
        (fs gs : Fields)
        → AlikeFields fs gs
        → redact_fields unicode_lower fs ≡ redact_fields unicode_lower gs
    redact_fields-Alike end end h = refl
    redact_fields-Alike (field k v fs) (field j w gs) h =
        ground (arith, redact-Alike v w, redact_fields-Alike fs gs)
    redact_fields-Alike _ _ h = absurd h

  -- Under a key that is kept, equal outputs come from like values.
  kept :
      (k : Bytes) (v w : Any)
      → (redact_value unicode_lower v ≡ redact_value unicode_lower w → Alike v w)
      → (if is_field_key_to_redact unicode_lower k
          then str redacted_value
          else redact_value unicode_lower v)
        ≡ (if is_field_key_to_redact unicode_lower k
            then str redacted_value
            else redact_value unicode_lower w)
      → (is_field_key_to_redact unicode_lower k ≡ true) ⊎ Alike v w
  kept k v w ih e = elim (Bool-cases (is_field_key_to_redact unicode_lower k)) [
    | inl hit ↦ inl hit
    | inr miss ↦ inr (ih (rw miss at e))
  ]

  kept_self :
      (k : Bytes) (v : Any)
      → Alike (redact_value unicode_lower v) v
      → (is_field_key_to_redact unicode_lower k ≡ true)
        ⊎ Alike
            (if is_field_key_to_redact unicode_lower k
              then str redacted_value
              else redact_value unicode_lower v)
            v
  kept_self k v h = elim (Bool-cases (is_field_key_to_redact unicode_lower k)) [
    | inl hit ↦ inl hit
    | inr miss ↦ inr (rw miss h)
  ]

  mutual
    unfolding redact_value

    Alike-redact :
        (v w : Any) → redact_value unicode_lower v ≡ redact_value unicode_lower w → Alike v w
    Alike-redact (object fs) (object gs) h = AlikeFields-redact fs gs (ground arith)
    Alike-redact (array xs) (array ys) h = AlikeItems-redact xs ys (ground arith)
    Alike-redact (array nil) nil_slice h = tt
    Alike-redact (array (cons x xs)) nil_slice h = cc
    Alike-redact nil_slice (array nil) h = tt
    Alike-redact nil_slice (array (cons x xs)) h = cc
    Alike-redact v w h = ground arith

    AlikeItems-redact :
        (xs ys : Items)
        → redact_items unicode_lower xs ≡ redact_items unicode_lower ys
        → AlikeItems xs ys
    AlikeItems-redact nil nil h = tt
    AlikeItems-redact (cons x xs) (cons y ys) h =
        (Alike-redact x y (ground arith), AlikeItems-redact xs ys (ground arith))
    AlikeItems-redact _ _ h = cc

    AlikeFields-redact :
        (fs gs : Fields)
        → redact_fields unicode_lower fs ≡ redact_fields unicode_lower gs
        → AlikeFields fs gs
    AlikeFields-redact end end h = tt
    AlikeFields-redact (field k v fs) (field j w gs) h =
        (cc, kept k v w (Alike-redact v w) (ground arith), AlikeFields-redact fs gs (ground arith))
    AlikeFields-redact _ _ h = cc

  mutual
    unfolding redact_value

    redact_value-Alike_self : (v : Any) → Alike (redact_value unicode_lower v) v
    redact_value-Alike_self (object fs) = redact_fields-Alike_self fs
    redact_value-Alike_self (array xs) = redact_items-Alike_self xs
    redact_value-Alike_self nil_slice = tt
    redact_value-Alike_self v = refl

    redact_items-Alike_self : (xs : Items) → AlikeItems (redact_items unicode_lower xs) xs
    redact_items-Alike_self nil = tt
    redact_items-Alike_self (cons x xs) = (redact_value-Alike_self x, redact_items-Alike_self xs)

    redact_fields-Alike_self : (fs : Fields) → AlikeFields (redact_fields unicode_lower fs) fs
    redact_fields-Alike_self end = tt
    redact_fields-Alike_self (field k v fs) =
        (refl, kept_self k v (redact_value-Alike_self v), redact_fields-Alike_self fs)

  abbrev pub AlikeMaps : Option Fields → Option Fields → Type 0
  AlikeMaps (some fs) (some gs) = AlikeFields fs gs
  AlikeMaps m n = m ≡ n

  -- Two maps have the same redaction exactly when they differ only in what stands under the keys
  -- of the deny-list, at any depth (a nil slice counts as an empty one).
  pub redact_map-Alike_iff :
      (m n : Option Fields)
      → (redact_map unicode_lower m ≡ redact_map unicode_lower n) ↔ AlikeMaps m n
  unfolding redact_map
  redact_map-Alike_iff none none = (λ e. refl, λ e. refl)
  redact_map-Alike_iff none (some gs) = (λ e. cc, λ e. cc)
  redact_map-Alike_iff (some fs) none = (λ e. cc, λ e. cc)
  redact_map-Alike_iff (some fs) (some gs) =
      (λ e. AlikeFields-redact fs gs (cc), λ h. ap some (redact_fields-Alike fs gs h))

  -- The redaction of a map has the map's keys, in the same order at every depth, and its values,
  -- but for those under the keys of the deny-list; redacting once more changes nothing.
  pub redact_map_keeps :
      (m : Option Fields)
      → AlikeMaps (redact_map unicode_lower m) m
        × (redact_map unicode_lower (redact_map unicode_lower m) ≡ redact_map unicode_lower m)
  unfolding redact_map
  redact_map_keeps none = (refl, refl)
  redact_map_keeps (some fs) =
      let alike = redact_fields-Alike_self fs in
      (alike, ap some (redact_fields-Alike (redact_fields unicode_lower fs) fs alike))

-- ===== src/Logger/Redact/Headers.antt =====
-- What RedactHeaders hides and what it keeps.
use id_core.Prelude.{
  ℕ, suc, Bool, true, false, some, List, [], ◌∷◌, ◌≡◌, refl, ap, ◌⊎◌, inl, inr, ◌↔◌, arith, map,
  length,
}
use id_core.Go.Bytes.{Bytes}
use id_core.Logger.Redact.{
  Header, redacted_value, is_header_key_to_redact, redact_values, redact_entries, redact_headers,
}

map_const-length :
    (v w : List Bytes)
    → (map (λ _. redacted_value) v ≡ map (λ _. redacted_value) w) ↔ (length v ≡ length w)
map_const-length [] [] = (λ e. refl, λ e. refl)
map_const-length [] (y ∷ w) = (λ e. cc, λ e. absurd (omega arith))
map_const-length (x ∷ v) [] = (λ e. cc, λ e. absurd (omega arith))
map_const-length (x ∷ v) (y ∷ w) =
    let ih = map_const-length v w in
    (λ e. ap suc (ih.0 (cc)), λ e. ap (λ t. redacted_value ∷ t) (ih.1 (omega arith)))

module _ (unicode_lower : ℕ → ℕ) where
  -- Equal, but for the values of the headers of the deny-list, of which the number is kept.
  abbrev pub AlikeHeader : Header → Header → Type 0
  AlikeHeader [] [] = Unit
  AlikeHeader ((k, v) ∷ h) ((j, w) ∷ g) =
      (k ≡ j)
      × (((is_header_key_to_redact unicode_lower k ≡ true) × (length v ≡ length w)) ⊎ (v ≡ w))
      × AlikeHeader h g
  AlikeHeader _ _ = ⊥

  redact_values_iff :
      (b : Bool) (v w : List Bytes)
      → (redact_values unicode_lower b v ≡ redact_values unicode_lower b w)
        ↔ (((b ≡ true) × (length v ≡ length w)) ⊎ (v ≡ w))
  redact_values_iff true v w = (
    λ e. inl (refl, (map_const-length v w).0 e),
    λ h. elim h [ inl p ↦ (map_const-length v w).1 p.1 | inr p ↦ ap (map (λ _. redacted_value)) p ],
  )
  redact_values_iff false v w = (λ e. inr e, λ h. elim h [ inl p ↦ cc | inr p ↦ p ])

  entries_iff :
      (h g : Header)
      → (redact_entries unicode_lower h ≡ redact_entries unicode_lower g) ↔ AlikeHeader h g
  entries_iff [] [] = (λ e. tt, λ e. refl)
  entries_iff [] (b ∷ g) = (λ e. cc, λ e. absurd e)
  entries_iff (a ∷ h) [] = (λ e. cc, λ e. absurd e)
  entries_iff ((k, v) ∷ h) ((j, w) ∷ g) =
      let hit = is_header_key_to_redact unicode_lower k in
      (
        λ e. (cc, (redact_values_iff hit v w).0 (ground arith), (entries_iff h g).0 (cc)),
        λ p. cc (p.0, (redact_values_iff hit v w).1 p.1, (entries_iff h g).1 p.2),
      )

  -- Two headers have the same redaction exactly when they have the same keys in the same order
  -- and, key by key, the same values, or as many values under a key of the deny-list.
  pub redact_headers-Alike_iff :
      (h g : Header)
      → (redact_headers unicode_lower (some h) ≡ redact_headers unicode_lower (some g))
        ↔ AlikeHeader h g
  unfolding redact_headers
  redact_headers-Alike_iff h g =
      (λ e. (entries_iff h g).0 (cc), λ p. ap some ((entries_iff h g).1 p))

-- ===== src/Middleware/RequestId/Sanitize.antt =====
-- What sanitizeClientRequestID returns.
use id_core.Prelude.{
  ℕ, suc, ◌+◌, ◌≤◌, ◌<◌, true, List, [], ◌∷◌, ◌++◌, ◌≡◌, refl, sym, ap, ◌∙◌, ◌≢◌, ◌⊎◌, inl, inr,
  ◌↔◌, arith, All, All-append, all, length, length-append, take, ltb, ltb→lt, Bool-cases,
  append_assoc, append-nil,
}
use id_core.Go.Bytes.{Bytes}
use id_core.Go.Case.{flat_map}
use id_core.Go.Utf8.{runes}
use id_core.Go.Utf8.Laws.{runes_ascii, runes-ne-nil}
use id_core.Middleware.RequestId.{
  is_printable, is_valid_request_id, rune_part, sanitize_from, sanitize_client_request_id,
}
use id_core.Middleware.RequestId.RuneParts.{Printable, rune_part_plain, rune_part-Printable}

is_valid_request_id-all : (s : Bytes) → (all is_printable s ≡ true) ↔ Printable s
is_valid_request_id-all [] = (λ h. tt, λ h. refl)
is_valid_request_id-all (c ∷ s) =
    let (to, from) = is_valid_request_id-all s in
    (λ h. (ground arith, to (ground arith)), λ h. ground (arith, from h.1))

-- An id is accepted exactly when it has 1 to 128 bytes, all from 0x21 to 0x7E.
pub is_valid_request_id_iff :
    (s : Bytes) → (is_valid_request_id s ≡ true) ↔ ((s ≢ []) × (length s ≤ 128) × Printable s)
unfolding is_valid_request_id
is_valid_request_id_iff [] = (λ h. cc, λ h. absurd (h.0 refl))
is_valid_request_id_iff (c ∷ s) =
    let (to, from) = is_valid_request_id-all (c ∷ s) in
    (λ h. ((λ e. cc), ground arith, to (ground arith)), λ h. ground (arith, from h.2))

-- What the loop adds: parts of whole runes, from the first on, for as long as they fit.
pub record IsCut (b : Bytes) (rs : List ℕ) (out : Bytes) : Type 0 where
  pub n : ℕ
  pub parts : out ≡ b ++ flat_map rune_part (take n rs)
  pub fits : length out ≤ 128
  pub printable : Printable out
  pub full : (take n rs ≡ rs) ⊎ (128 < length (b ++ flat_map rune_part (take (suc n) rs)))

over_full :
    (b : Bytes) (r : ℕ)
    → ltb 128 (length b + length (rune_part r)) ≡ true
    → 128 < length (b ++ (rune_part r ++ []))
over_full b r over =
    let lt = ltb→lt 128 (length b + length (rune_part r)) over in
    rw append-nil (omega (arith, length-append b (rune_part r)))

IsCut-cons :
    {b : Bytes} {r : ℕ} {rs : List ℕ} {out : Bytes}
    → IsCut (b ++ rune_part r) rs out
    → IsCut b (r ∷ rs) out
IsCut-cons {b} {r} {rs} c = record {
  n = suc c.n;
  parts = c.parts ∙ append_assoc b (rune_part r) (flat_map rune_part (take c.n rs));
  fits = c.fits;
  printable = c.printable;
  full = elim c.full [
    | inl every ↦ inl (ap (λ t. r ∷ t) every)
    | inr over ↦ inr (rw append_assoc at over)
  ];
}

sanitize_from-IsCut :
    (b : Bytes) (rs : List ℕ) → length b ≤ 128 → Printable b → IsCut b rs (sanitize_from b rs)
unfolding sanitize_from
sanitize_from-IsCut b [] short ok = record {
  n = 0;
  parts = sym (append-nil b);
  fits = short;
  printable = ok;
  full = inl refl;
}
sanitize_from-IsCut b (r ∷ rs) short ok =
    elim (Bool-cases (ltb 128 (length b + length (rune_part r)))) [
      | inl over ↦ rw over (record {
        n = 0;
        parts = sym (append-nil b);
        fits = short;
        printable = ok;
        full = inr (over_full b r over);
      })
      | inr room ↦ rw room (
          IsCut-cons (
            sanitize_from-IsCut (b ++ rune_part r) rs
              (ground (arith, length-append b (rune_part r)))
              (All-append (λ c. (0x21 ≤ c) × (c ≤ 0x7E)) b (rune_part r) ok
                (rune_part-Printable r).0)))
    ]

sanitize_from_grows : (b : Bytes) (rs : List ℕ) → length b ≤ length (sanitize_from b rs)
unfolding sanitize_from
sanitize_from_grows b [] = omega arith
sanitize_from_grows b (r ∷ rs) =
    ground (arith, sanitize_from_grows (b ++ rune_part r) rs, length-append b (rune_part r))

sanitize_from-ne-nil : (rs : List ℕ) → rs ≢ [] → 0 < length (sanitize_from [] rs)
unfolding sanitize_from
sanitize_from-ne-nil [] ne = absurd (ne refl)
sanitize_from-ne-nil (r ∷ rs) ne =
    let (_, pos, short) = rune_part-Printable r in
    ground (arith, sanitize_from_grows (rune_part r) rs)

length-ne-nil : (s : Bytes) → 0 < length s → s ≢ []
length-ne-nil s h e = absurd (ground arith)

-- The sanitized form of any id but the empty one, of whatever bytes, is itself a valid id: it has 1
-- to 128 bytes and no control character, space or byte above 0x7E.
pub sanitize-is_valid :
    (s : Bytes) → s ≢ [] → is_valid_request_id (sanitize_client_request_id s) ≡ true
unfolding sanitize_client_request_id
sanitize-is_valid [] ne = absurd (ne refl)
sanitize-is_valid (c ∷ s) ne =
    let cut = sanitize_from-IsCut [] (runes (c ∷ s)) (omega arith) tt in
    (is_valid_request_id_iff _).1 (
      length-ne-nil _ (sanitize_from-ne-nil (runes (c ∷ s)) (runes-ne-nil c s)),
      cut.fits,
      cut.printable,
    )

-- Whole runes are kept, each as it stands or as one escape, from the first on: either all of them,
-- or as many as fit into 128 bytes, so that the next one would not.
pub sanitize_cut :
    (s : Bytes)
    → (n : ℕ) × (sanitize_client_request_id s ≡ flat_map rune_part (take n (runes s)))
      × (length (sanitize_client_request_id s) ≤ 128)
      × ((take n (runes s) ≡ runes s)
          ⊎ (128 < length (flat_map rune_part (take (suc n) (runes s)))))
unfolding sanitize_client_request_id
sanitize_cut s =
    let cut = sanitize_from-IsCut [] (runes s) (omega arith) tt in
    (cut.n, cut.parts, cut.fits, cut.full)

sanitize_from_plain :
    (b s : Bytes) → Printable s → length b + length s ≤ 128 → sanitize_from b s ≡ b ++ s
unfolding sanitize_from
sanitize_from_plain b [] ok fits = sym (append-nil b)
sanitize_from_plain b (c ∷ s) ok fits =
    let plain : is_printable c ≡ true = ground arith in
    let ih = sanitize_from_plain (b ++ (c ∷ [])) s ok.1 (omega (arith, length-append b (c ∷ []))) in
    rw (rune_part_plain c plain) (ground (arith, ih, append_assoc b (c ∷ []) s))

Printable-ascii : (s : Bytes) → Printable s → All (λ b. b < 0x80) s
Printable-ascii [] h = tt
Printable-ascii (c ∷ s) h = (omega arith, Printable-ascii s h.1)

-- A valid id is its own sanitized form.
sanitize-of_valid : (s : Bytes) → is_valid_request_id s ≡ true → sanitize_client_request_id s ≡ s
unfolding sanitize_client_request_id
sanitize-of_valid s h =
    let (ne, short, ok) = (is_valid_request_id_iff s).0 h in
    rw (runes_ascii s (Printable-ascii s ok)) (sanitize_from_plain [] s ok (omega arith))

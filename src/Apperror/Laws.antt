-- ===== src/Apperror/Laws.antt =====
-- What a coded error shows to the client and keeps for itself.
use id_core.Prelude.{ℕ, Option, none, some, ◌≡◌, refl, ap, ◌∙◌}
use id_core.Go.Bytes.{Bytes}
use id_core.Go.Any.{Any, object, nil_slice, array, Items, nil, cons, Fields, end, field}
use id_core.Http.{ResponseWriter}
use id_core.Apperror.{
  CodedError, clone_value, clone_items, clone_fields, clone_details, with_details, wrap,
  get_details, to_response, write_json,
}

mutual
  unfolding clone_value

  pub clone_value_idem : (v : Any) → clone_value (clone_value v) ≡ clone_value v
  clone_value_idem (object fs) = ap object (clone_fields_idem fs)
  clone_value_idem nil_slice = refl
  clone_value_idem (array xs) = ap array (clone_items_idem xs)
  clone_value_idem v = refl

  clone_items_idem : (xs : Items) → clone_items (clone_items xs) ≡ clone_items xs
  clone_items_idem nil = refl
  clone_items_idem (cons x xs) = cc (clone_value_idem x, clone_items_idem xs)

  clone_fields_idem : (fs : Fields) → clone_fields (clone_fields fs) ≡ clone_fields fs
  clone_fields_idem end = refl
  clone_fields_idem (field k v fs) = cc (clone_value_idem v, clone_fields_idem fs)

clone_details_idem : (d : Option Fields) → clone_details (clone_details d) ≡ clone_details d
unfolding clone_details
clone_details_idem none = refl
clone_details_idem (some fs) = ap some (clone_fields_idem fs)

-- The details that were set are read back, in the reply and by the getter alike, as one copy; to
-- set what was read back changes nothing; and an error that has been wrapped before or after has
-- the same reply.
to_response-with_details :
    (e : CodedError) (d : Option Fields) (cause : Option Bytes) (id : Bytes)
    → (get_details (with_details e d) ≡ clone_details d)
      × ((to_response (some (with_details e d)) id).details ≡ get_details (with_details e d))
      × (with_details e (get_details (with_details e d)) ≡ with_details e d)
      × (to_response (some (wrap (with_details e d) cause)) id
          ≡ to_response (some (with_details (wrap e cause) d)) id)
unfolding with_details get_details to_response wrap
to_response-with_details e d cause id = (
  clone_details_idem d,
  refl,
  ap (λ x. record e { details = x }) (clone_details_idem (clone_details d) ∙ clone_details_idem d),
  refl,
)

-- Nothing of the wrapped cause reaches the client: over every writer, errors that differ only in
-- the cause have one reply, whatever the status.
write_json-wrap :
    {W : Type 0} (out : ResponseWriter W) (status : ℕ) (e : CodedError)
    (cause other_cause : Option Bytes) (id : Bytes) (w : W)
    → write_json out status (some (wrap e cause)) id w
      ≡ write_json out status (some (wrap e other_cause)) id w
unfolding write_json wrap to_response
write_json-wrap out status e cause other_cause id w = refl

-- ===== src/Logger/Context/Laws.antt =====
-- The two ids of a context are kept apart.
use id_core.Prelude.{Option, none, some, ◌≡◌, refl}
use id_core.Go.Bytes.{Bytes}
use id_core.Go.Context.{Context}
use id_core.Logger.Context.{with_request_id, request_id_from, with_event_id, event_id_from}

-- The id that was put into a context, a nil one included, is read back, and the other id of the
-- context is what it was.
ids_kept_apart :
    (ctx : Option Context) (id : Bytes)
    → (request_id_from (some (with_request_id ctx id)) ≡ id)
      × (event_id_from (some (with_request_id ctx id)) ≡ event_id_from ctx)
      × (event_id_from (some (with_event_id ctx id)) ≡ id)
      × (request_id_from (some (with_event_id ctx id)) ≡ request_id_from ctx)
unfolding with_request_id request_id_from with_event_id event_id_from
ids_kept_apart none id = (refl, refl, refl, refl)
ids_kept_apart (some ctx) id = (refl, refl, refl, refl)

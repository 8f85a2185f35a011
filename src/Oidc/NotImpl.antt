-- ===== src/Oidc/NotImpl.antt =====
-- core/internal/oidc/notimpl: the stub of an endpoint that is announced and not there.
use id_core.Prelude.{[], ◌∷◌, ◌++◌}
use id_core.Go.Bytes.{Bytes, bytes}
use id_core.Go.Json.{json_string, json_object}
use id_core.Http.{Request, Program, done, set_header, write_header, write}

-- The keys of the map in byte order, as json writes them, and the newline of Encode.
unfoldable pub not_implemented : Bytes → Request → Program
unfolding json_string
not_implemented milestone r = set_header (bytes "Content-Type") (bytes "application/json") (
    set_header (bytes "Cache-Control") (bytes "no-store") (
      write_header 503 (
        write
          (json_object (
              (bytes "available_at", json_string milestone)
              ∷ (bytes "error", json_string (bytes "endpoint_not_implemented"))
              ∷ [])
            ++ 10 ∷ [])
          (λ _. done))))

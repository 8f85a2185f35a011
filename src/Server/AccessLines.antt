-- ===== src/Server/AccessLines.antt =====
-- The access lines of the server's own handlers.
use id_core.Prelude.{ℕ, Option, none, some, refl, sym, subst}
use id_core.Go.Bytes.{Bytes}
use id_core.Go.Http.{Response}
use id_core.Http.{Request, World, server_writer, serve}
use id_core.Health.{PingError, warn_write_error, health_handler, live_handler, ready_handler}
use id_core.Oidc.NotImpl.{not_implemented}
use id_core.Oidc.Discovery.Caching.{serve_http-IsPlain}
use id_core.Server.{
  Endpoint, health, live, ready, discovery, jwks, stub, not_found, method_not_allowed,
  endpoint_handler, HttpServer, dispatch, request_path, server_handler,
}
use id_core.Oidc.Jwks.Announced.{serve_jwks-serve_http}
use id_core.Middleware.RequestId.{identify}
use id_core.Middleware.Chain.{Runtime, wrap}
use id_core.Middleware.Chain.Agree.{IsPlain}
use id_core.Middleware.Chain.Status.{IsFresh, EndsWithAccess, client_status, wrap-Ends}

warn_write_error-IsPlain :
    (message : Bytes) (e : Option Bytes) → IsPlain (warn_write_error message e)
warn_write_error-IsPlain message none = tt
warn_write_error-IsPlain message (some e) = tt

endpoint_handler-IsPlain :
    (endpoint : Endpoint) (r : Request) → IsPlain (endpoint_handler endpoint r)
unfolding endpoint_handler health_handler live_handler ready_handler not_implemented
endpoint_handler-IsPlain health r = ((refl, refl), warn_write_error-IsPlain _)
endpoint_handler-IsPlain live r = ((refl, refl), warn_write_error-IsPlain _)
endpoint_handler-IsPlain (ready none) r = ((refl, refl), warn_write_error-IsPlain _)
endpoint_handler-IsPlain (ready (some e)) r = ((refl, refl), warn_write_error-IsPlain _)
endpoint_handler-IsPlain (discovery h) r = serve_http-IsPlain h r
endpoint_handler-IsPlain (jwks h) r =
    subst IsPlain (sym (serve_jwks-serve_http h r))
      (serve_http-IsPlain (record { body = h.body; etag = h.etag; cache = h.cache }) r)
endpoint_handler-IsPlain (stub milestone) r = ((refl, refl), λ _. tt)
endpoint_handler-IsPlain not_found r = ((refl, refl), λ _. tt)
endpoint_handler-IsPlain (method_not_allowed allow) r = ((refl, refl), λ _. tt)

-- For each of the health, discovery, JWKS and stub handlers and the replies of ServeMux under the whole chain, whatever the
-- connection does: the last record of the request is its access line, and the status in it is the
-- one that the client receives.
endpoint-Ends :
    (unicode_lower : ℕ → ℕ) (t : Runtime) (endpoint : Endpoint) (r : Request) (s : World Response)
    → IsFresh s.writer
    → EndsWithAccess unicode_lower
        (identify t.process t.uuid t.nanos r s.sequence).0
        (client_status
          (wrap unicode_lower t
            (serve (endpoint_handler endpoint))
            Response
            server_writer
            r
            s).1.writer)
        t.elapsed
        (wrap unicode_lower t (serve (endpoint_handler endpoint)) Response server_writer r s).1.logs
endpoint-Ends unicode_lower t endpoint r s fresh =
    wrap-Ends unicode_lower t (endpoint_handler endpoint) (endpoint_handler-IsPlain endpoint) r s
      fresh

-- For every server, whatever the method and the path of the request, whatever the connection does and
-- whatever the database answers: the last record of a request is its access line, and the status in
-- it is the one that the client receives.
pub server_handler-Ends :
    (unicode_lower : ℕ → ℕ) (t : Runtime) (srv : HttpServer) (ping : Option PingError) (r : Request)
    (s : World Response)
    → IsFresh s.writer
    → EndsWithAccess unicode_lower
        (identify t.process t.uuid t.nanos r s.sequence).0
        (client_status
          (server_handler unicode_lower t srv ping Response server_writer r s).1.writer)
        t.elapsed
        (server_handler unicode_lower t srv ping Response server_writer r s).1.logs
unfolding server_handler
server_handler-Ends unicode_lower t srv ping r s fresh =
    wrap-Ends unicode_lower t
      (λ q. endpoint_handler (dispatch srv.routes ping q.method (request_path q.url)) q)
      (λ q. endpoint_handler-IsPlain (dispatch srv.routes ping q.method (request_path q.url)) q) r s
      fresh

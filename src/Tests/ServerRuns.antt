-- ===== src/Tests/ServerRuns.antt =====
-- The server's own handlers on concrete requests.
use id_core.Prelude.{ℕ, none, some, [], ◌∷◌, ◌≡◌, refl}
use id_core.Go.Bytes.{bytes, bytes_eq}
use id_core.Go.Context.{background}
use id_core.Go.Http.{Response, fresh_response}
use id_core.Http.{Request, World, server_writer}
use id_core.Middleware.RequestId.{identify}
use id_core.Middleware.Chain.{Runtime}
use id_core.Middleware.Chain.Status.{client_status, EndsWithAccess}
use id_core.Server.{
  ready, method_not_allowed, HttpServer, read_header_timeout, has_method, dispatch, request_path,
  server_handler,
}
use id_core.Server.AccessLines.{server_handler-Ends}

abbrev same_rune : ℕ → ℕ
same_rune r = r

abbrev request : Request
request = record { method = bytes "GET"; url = none; header = []; context = background }

abbrev runtime : Runtime
runtime = record {
  process = record { host = bytes "core-1"; pid = 42 };
  uuid = none;
  nanos = 7;
  elapsed = 15;
  stack = [];
}

abbrev begin : World Response
begin = record { writer = fresh_response []; logs = []; sequence = 0 }

abbrev server : HttpServer
server = record {
  addr = bytes ":8080";
  routes = (record { method = bytes "GET"; path = bytes "/health/ready"; endpoint = ready }) ∷ [];
  read_header_timeout = read_header_timeout;
}

-- A method that no route has.
abbrev refused_request : Request
refused_request = record request {
  method = bytes "POST";
  url = some (record { escaped_path = bytes "/health/ready"; raw_query = [] });
}

refused_method :
    dispatch server.routes none refused_request.method (request_path refused_request.url)
    ≡ method_not_allowed (bytes "GET, HEAD")
unfolding dispatch has_method bytes_eq
refused_method = refl

server_handler-Ends_example :
    EndsWithAccess same_rune
      (identify runtime.process runtime.uuid runtime.nanos refused_request 0).0
      (client_status
        (server_handler same_rune runtime server none Response server_writer refused_request
          begin).1.writer)
      15
      (server_handler same_rune runtime server none Response server_writer refused_request
        begin).1.logs
server_handler-Ends_example =
    server_handler-Ends same_rune runtime server none refused_request begin (refl, refl)

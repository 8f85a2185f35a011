-- ===== src/Tests/OidcRuns.antt =====
-- core/internal/oidc on concrete requests.
use id_core.Prelude.{none, [], ◌≡◌, refl}
use id_core.Go.Bytes.{Bytes, bytes}
use id_core.Go.Context.{background}
use id_core.Go.Http.{get_header}
use id_core.Http.{Request}
use id_core.Go.Strconv.{decimal}
use id_core.Oidc.Discovery.{DiscoveryHandler, header_etag, cache_control_value, etag}
use id_core.Oidc.Discovery.Caching.{reply, revalidate, reply-revalidate}

abbrev handler : DiscoveryHandler
handler = record {
  body = bytes "{}";
  etag = bytes "\"abc\"";
  cache = bytes "no-cache, must-revalidate";
}

abbrev request : Request
request = record { method = bytes "GET"; url = none; header = []; context = background }

no_tag : get_header (bytes "If-None-Match") [] ≡ []
unfolding get_header
no_tag = refl

reply-revalidate_example :
    ((reply handler request).status ≡ 200)
    × ((reply handler request).body ≡ bytes "{}")
    × (get_header (bytes "Cache-Control") (reply handler request).sent
        ≡ bytes "no-cache, must-revalidate")
    × ((reply handler (revalidate request (reply handler request))).status ≡ 304)
    × ((reply handler (revalidate request (reply handler request))).body ≡ [])
    × (get_header header_etag (reply handler (revalidate request (reply handler request))).sent
        ≡ get_header header_etag (reply handler request).sent)
reply-revalidate_example = reply-revalidate handler request (λ e. cc (e, no_tag))

one_minute : cache_control_value 60 ≡ bytes "public, max-age=60, must-revalidate"
unfolding cache_control_value decimal
one_minute = refl

abbrev same_bytes : Bytes → Bytes
same_bytes s = s

quoted : etag same_bytes same_bytes (bytes "0123456789abcdefgh") ≡ bytes "\"0123456789abcdef\""
unfolding etag
quoted = refl

-- ===== src/Oidc/Discovery/Caching.antt =====
-- Conditional requests for the metadata, and what the metadata depends on.
use id_core.Prelude.{ℕ, true, false, [], ◌∷◌, ◌≡◌, ◌≢◌, refl, sym, ap, ◌∙◌, Bool-cases, inl, inr}
use id_core.Go.Bytes.{Bytes, bytes, bytes_eq, bytes_eq_refl, bytes_eq_sound}
use id_core.Go.Context.{Context}
use id_core.Go.Http.{Response, Headers, get_header, set_header as set_key, fresh_response}
use id_core.Http.{Request, Program, server_writer, run, set_header, write_header, write, done}
use id_core.Config.{OidcConfig}
use id_core.Oidc.Discovery.{
  DiscoveryHandler, header_etag, header_if_none_match, build, new_discovery, serve_http,
}
use id_core.Middleware.Chain.Agree.{IsPlain}

-- A header that was set is read back.
get_header-set_key : (k v : Bytes) (h : Headers) → get_header k (set_key k v h) ≡ v
unfolding get_header set_key
get_header-set_key k v [] = rw (bytes_eq_refl k) refl
get_header-set_key k v ((j, w) ∷ h) = elim (Bool-cases (bytes_eq j k)) [
  | inl same ↦ rw same (rw same refl)
  | inr other ↦ rw other (rw other (get_header-set_key k v h))
]

-- The reply to a request on a connection without faults.
unfoldable pub reply : DiscoveryHandler → Request → Response
unfolding run server_writer
reply h r =
    (run server_writer r.context (serve_http h r)
      (record { writer = fresh_response []; logs = []; sequence = 0 })).1.writer

-- The request with the ETag of an earlier reply.
unfoldable pub revalidate : Request → Response → Request
revalidate r earlier = record r {
  header = set_key header_if_none_match (get_header header_etag earlier.sent) r.header;
}

abbrev full_headers : DiscoveryHandler → Headers
full_headers h =
    (bytes "Content-Type", bytes "application/json")
    ∷ (bytes "Cache-Control", h.cache)
    ∷ (header_etag, h.etag)
    ∷ []

not_same : (s t : Bytes) → s ≢ t → bytes_eq s t ≡ false
not_same s t ne = elim (Bool-cases (bytes_eq s t)) [
  | inl same ↦ absurd (ne (bytes_eq_sound s t same))
  | inr other ↦ other
]

abbrev pub sent_with : ℕ → Headers → Bytes → Response
sent_with status header body = record {
  header = header;
  wrote_header = true;
  status = status;
  sent = header;
  body = body;
  informational = [];
  faults = [];
  hijacked = false;
}

abbrev full_reply : DiscoveryHandler → Program
full_reply h = set_header (bytes "Content-Type") (bytes "application/json") (
    set_header (bytes "Cache-Control") h.cache
      (set_header header_etag h.etag (write_header 200 (write h.body (λ _. done)))))

abbrev not_modified : DiscoveryHandler → Program
not_modified h = set_header header_etag h.etag (write_header 304 done)

serve_http-full :
    (h : DiscoveryHandler) (r : Request)
    → get_header header_if_none_match r.header ≢ h.etag
    → serve_http h r ≡ full_reply h
unfolding serve_http
serve_http-full h r ne = rw (not_same (get_header header_if_none_match r.header) h.etag ne) refl

serve_http-not_modified :
    (h : DiscoveryHandler) (r : Request)
    → get_header header_if_none_match r.header ≡ h.etag
    → serve_http h r ≡ not_modified h
unfolding serve_http
serve_http-not_modified h r same = rw (same, bytes_eq_refl h.etag) refl

abbrev pub run_fresh : Context → Program → Response
run_fresh ctx body =
    (run server_writer ctx body
      (record { writer = fresh_response []; logs = []; sequence = 0 })).1.writer

run-full :
    (ctx : Context) (h : DiscoveryHandler)
    → run_fresh ctx (full_reply h) ≡ sent_with 200 (full_headers h) h.body
unfolding run server_writer
run-full ctx h = refl

run-not_modified :
    (ctx : Context) (h : DiscoveryHandler)
    → run_fresh ctx (not_modified h) ≡ sent_with 304 ((header_etag, h.etag) ∷ []) []
unfolding run server_writer
run-not_modified ctx h = refl

reply-full :
    (h : DiscoveryHandler) (r : Request)
    → get_header header_if_none_match r.header ≢ h.etag
    → reply h r ≡ sent_with 200 (full_headers h) h.body
unfolding reply
reply-full h r ne = ap (run_fresh r.context) (serve_http-full h r ne) ∙ run-full r.context h

reply-not_modified :
    (h : DiscoveryHandler) (r : Request)
    → get_header header_if_none_match r.header ≡ h.etag
    → reply h r ≡ sent_with 304 ((header_etag, h.etag) ∷ []) []
unfolding reply
reply-not_modified h r same =
    ap (run_fresh r.context) (serve_http-not_modified h r same) ∙ run-not_modified r.context h

sent_etag : (h : DiscoveryHandler) → get_header header_etag (full_headers h) ≡ h.etag
unfolding get_header
sent_etag h = refl

-- On a connection without faults, a request without the current ETag is answered by 200 with the
-- whole body and the cache header; the same request with the ETag of that reply is answered by 304
-- with the same ETag and no body.
pub reply-revalidate :
    (h : DiscoveryHandler) (r : Request)
    → get_header header_if_none_match r.header ≢ h.etag
    → ((reply h r).status ≡ 200)
      × ((reply h r).body ≡ h.body)
      × (get_header (bytes "Cache-Control") (reply h r).sent ≡ h.cache)
      × ((reply h (revalidate r (reply h r))).status ≡ 304)
      × ((reply h (revalidate r (reply h r))).body ≡ [])
      × (get_header header_etag (reply h (revalidate r (reply h r))).sent
          ≡ get_header header_etag (reply h r).sent)
unfolding revalidate
reply-revalidate h r ne =
    let first = reply-full h r ne in
    let tag : get_header header_etag (reply h r).sent ≡ h.etag =
      ap (λ w. get_header header_etag w.sent) first ∙ sent_etag h in
    let second = reply-not_modified h (revalidate r (reply h r)) (
      get_header-set_key header_if_none_match (get_header header_etag (reply h r).sent) r.header
      ∙ tag) in
    (
      ap (λ w. w.status) first,
      ap (λ w. w.body) first,
      ap (λ w. get_header (bytes "Cache-Control") w.sent) first ∙ cached h,
      ap (λ w. w.status) second,
      ap (λ w. w.body) second,
      ap (λ w. get_header header_etag w.sent) second ∙ single h ∙ sym tag,
    )
  where
    cached : (h : DiscoveryHandler) → get_header (bytes "Cache-Control") (full_headers h) ≡ h.cache
    cached h = unfold get_header in refl

    single : (h : DiscoveryHandler) → get_header header_etag ((header_etag, h.etag) ∷ []) ≡ h.etag
    single h = unfold get_header in refl

-- The handler writes final statuses only, and neither flushes nor hijacks.
pub serve_http-IsPlain : (h : DiscoveryHandler) (r : Request) → IsPlain (serve_http h r)
unfolding serve_http
serve_http-IsPlain h r =
    elim (Bool-cases (bytes_eq (get_header header_if_none_match r.header) h.etag)) [
      | inl same ↦ rw same ((refl, refl), tt)
      | inr other ↦ rw other ((refl, refl), λ _. tt)
    ]

-- Two configurations with the same issuer, endpoints and cache time have the same handler, so that
-- the key file, the key id and the other settings leave no trace in its replies.
new_discovery-public :
    (sha256 base64_url : Bytes → Bytes) (c d : OidcConfig)
    → c.issuer ≡ d.issuer
    → c.authorization_endpoint ≡ d.authorization_endpoint
    → c.token_endpoint ≡ d.token_endpoint
    → c.user_info_endpoint ≡ d.user_info_endpoint
    → c.jwks_uri ≡ d.jwks_uri
    → c.discovery_max_age ≡ d.discovery_max_age
    → new_discovery sha256 base64_url c ≡ new_discovery sha256 base64_url d
unfolding new_discovery build
new_discovery-public sha256 base64_url c d issuer auth token info jwks age =
    rw (issuer, auth, token, info, jwks, age) refl

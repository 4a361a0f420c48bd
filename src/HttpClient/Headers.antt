-- ===== src/HttpClient/Headers.antt =====
-- The headers of a request as the one who gets it reads them, by their names: those that
-- httpclient/request.go and broker/interceptor.go set.
use glider_client_go.Common.{◌≡◌, refl, List, [], none, some, Bytes, lit, str_eq}
use glider_client_go.Common.Maps.{lookup}
use glider_client_go.Auth.{Hmac}
use glider_client_go.HttpClient.{Request, http_request}

-- The value of a header, empty without one.
abbrev pub header_of : Bytes → List (Bytes × Bytes) → Bytes
header_of name headers = elim (lookup name headers) [ none ↦ [] | some v ↦ v ]

-- The signature as it is read.
abbrev pub hmac_of : List (Bytes × Bytes) → Hmac
hmac_of headers = record {
  signature = header_of (lit "X-Signature") headers;
  timestamp = header_of (lit "X-Timestamp") headers;
  nonce = header_of (lit "X-Nonce") headers;
}

-- A request is read as it was signed, and for the project and the module of its client.
pub http_request_read :
    (r : Request)
    → (hmac_of (http_request r).headers ≡ r.hmac)
      × (header_of (lit "X-Project") (http_request r).headers ≡ r.project)
      × (header_of (lit "X-Module") (http_request r).headers ≡ r.module')
unfolding http_request lookup str_eq
http_request_read r = (refl, refl, refl)

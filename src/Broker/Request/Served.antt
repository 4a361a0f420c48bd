-- ===== src/Broker/Request/Served.antt =====
-- A request for the brokers and its answer, from both ends (broker/request.go, httpclient/client.go,
-- authhmac/authhmac.go).
use glider_client_go.Common.{
  ℕ, ◌-◌, ◌^◌, ◌<◌, ◌≡◌, refl, sym, true, List, [], ◌∷◌, ◌++◌, Option, some, Bytes, lit, str_eq,
  str_eq_refl, Result, ok, if◌then◌else◌, length, map, All, ◌∙◌, ap, suc,
}
use glider_client_go.Common.Int.{pos, pos_part, ◌<ℤ◌}
use glider_client_go.Std.Time.{Instant, unix, unix_of}
use glider_client_go.Auth.{Authhmac, Hmac, generate, validate}
use glider_client_go.Auth.Window.{IsFresh}
use glider_client_go.Auth.RoundTrip.{IsMac, validate-generate}
use glider_client_go.Broker.Info.{Broker}
use glider_client_go.HttpClient
use glider_client_go.HttpClient.{
  HttpError, Request, HttpRequest, HttpResponse, http_request, do_request, Response, create,
  or_fail, of_auth, validate_hmac, compare_request_nonce, get_nonce,
}
use glider_client_go.HttpClient.Headers.{header_of, hmac_of, http_request_read}
use glider_client_go.HttpClient.Outcomes.{create_signs, do_request_iff}
use mathlib.Core.List.{map-append}
use glider_client_go.Broker.Request.{
  RequestRes, RequestOptions, Surroundings, Attempt, check_response, attempt, request_brokers,
}
use glider_client_go.Broker.Request.Retries.{response_hmac, Fails, delays, request_retries}

-- A signature made at `signed` is fresh at `checked`, within the bounds of the round trip.
abbrev pub IsTimely : Authhmac → Instant → Instant → Type 0
IsTimely b signed checked =
    (pos 0 <ℤ unix_of signed)
    × (unix_of signed <ℤ pos (2 ^ 62))
    × (pos_part b.skew < 2 ^ 63 - 1)
    × (pos_part b.ttl < 2 ^ 63 - 1)
    × IsFresh b checked (unix (unix_of signed))

module _ (mac : Bytes → Bytes → Bytes) (unmarshal : Bytes → Option (Response RequestRes))
    (client : HttpClient.Client) where
  check_response_passes :
      (now : Instant) (req : Request) (resp : HttpResponse) (body : Bytes)
      (res : Response RequestRes)
      → resp.body ≡ some body
      → unmarshal body ≡ some res
      → validate mac client.auth now body (response_hmac resp) ≡ ok tt
      → res.request_nonce ≡ req.hmac.nonce
      → res.success ≡ true
      → check_response mac unmarshal client now req resp ≡ ok res.data'.brokers
  unfolding check_response validate_hmac compare_request_nonce get_nonce
  check_response_passes now req resp body res eb er ev en es =
      rw (eb, check_response) (rw er (rw (es, ev) (rw en (rw str_eq_refl refl))))

-- What the server sends: a status 200, a body, and its signature in the headers.
abbrev pub signed_response : Hmac → Bytes → HttpResponse
signed_response h body = record {
  status = 200;
  header = λ name.
      if str_eq name (lit "X-Signature")
      then h.signature
      else if str_eq name (lit "X-Timestamp")
      then h.timestamp
      else if str_eq name (lit "X-Nonce")
      then h.nonce
      else [];
  body = some body;
}

signed_response_hmac : (h : Hmac) (body : Bytes) → response_hmac (signed_response h body) ≡ h
unfolding str_eq
signed_response_hmac h body = refl

module _ (mac : Bytes → Bytes → Bytes) (unmarshal : Bytes → Option (Response RequestRes))
    (url_parse : Bytes → Option Bytes) (marshal : RequestOptions → Option Bytes)
    (client : HttpClient.Client) (opts : RequestOptions) where
  abbrev pub attempt_of : Surroundings → Attempt
  attempt_of = attempt mac unmarshal url_parse marshal client opts

  All-map :
      (ss : List Surroundings)
      → All (λ s. Fails mac unmarshal client (attempt_of s)) ss
      → All (Fails mac unmarshal client) (map attempt_of ss)
  All-map [] h = tt
  All-map (s ∷ ss) h = (h.0, All-map ss h.1)

  length-map_attempts : (ss : List Surroundings) → length (map attempt_of ss) ≡ length ss
  length-map_attempts [] = refl
  length-map_attempts (s ∷ ss) = ap (λ (n : ℕ). suc n) (length-map_attempts ss)

  -- Both ends together. However many attempts fail first, in the first that reaches the server, the
  -- server accepts what is sent, by the headers X-Signature, X-Timestamp and X-Nonce and the body that
  -- arrive, and reads the project and the module of the client in X-Project and X-Module; and the
  -- client takes the brokers from the response that the server signs. The conditions: they share the
  -- secret, the MAC yields bytes, each signature is checked while it is fresh, and the body of the
  -- response is a success that echoes the X-Nonce that arrived.
  pub request_served :
      (server : Authhmac) (server_rand : ℕ → Option Bytes) (arrival answered : Instant)
      (failures : List Surroundings) (s : Surroundings) (rest : List Surroundings) (req : Request)
      (body : Bytes) (h : Hmac) (res : Response RequestRes)
      → IsMac mac
      → client.auth.secret ≡ server.secret
      → All (λ f. Fails mac unmarshal client (attempt_of f)) failures
      → (attempt_of s).created ≡ ok req
      → s.buildable (http_request req) ≡ true
      → s.transport (http_request req) ≡ some (signed_response h body)
      → generate mac server_rand server answered body ≡ ok h
      → unmarshal body ≡ some res
      → res.success ≡ true
      → res.request_nonce ≡ header_of (lit "X-Nonce") (http_request req).headers
      → IsTimely server s.now arrival
      → IsTimely client.auth answered s.later
      → (validate mac server arrival (http_request req).body (hmac_of (http_request req).headers)
          ≡ ok tt)
        × (header_of (lit "X-Project") (http_request req).headers ≡ client.project)
        × (header_of (lit "X-Module") (http_request req).headers ≡ client.module')
        × (request_brokers mac unmarshal url_parse marshal client opts (failures ++ (s ∷ rest))
            ≡ some (delays mac unmarshal client (length failures) 0, ok res.data'.brokers))
  unfolding attempt request_brokers http_request
  request_served server server_rand arrival answered failures s rest req body h res m secret fail
        made built sent signed parsed success echoed (lo, hi, hs, ht, fresh)
        (lo', hi', hs', ht', fresh') =
      let read = http_request_read req in
      let resp = signed_response h body in
      let answer : (attempt_of s).answer ≡ ok resp =
        rw made ((do_request_iff s.buildable s.transport req resp).1 (built, sent, refl)) in
      let checked =
        validate-generate mac server_rand server client.auth answered s.later body h m signed
          (sym secret) lo' hi' hs' ht' fresh' in
      let passes =
        check_response_passes mac unmarshal client s.later req resp body res refl parsed
          (rw signed_response_hmac checked) (echoed ∙ ap (λ (h : Hmac). h.nonce) read.0) success in
      let (_, _, signed_request, _, project, module_is) =
        create_signs mac s.rand_read url_parse client s.now _ _ _ req made in
      (
        rw read.0 (
            validate-generate mac s.rand_read client.auth server s.now arrival req.body req.hmac m
              signed_request secret lo hi hs ht fresh),
        read.1 ∙ project,
        read.2 ∙ module_is,
        rw (map-append, ← length-map_attempts failures)
            (request_retries mac unmarshal client (map attempt_of failures) (attempt_of s)
                (map attempt_of rest) req resp (All-map failures fail) made answer
              ∙ ap
                  (λ (r : Result HttpError (List Broker)).
                    some (delays mac unmarshal client (length (map attempt_of failures)) 0, r))
                  passes),
      )

-- ===== src/HttpClient/Outcomes.antt =====
-- Which requests succeed (httpclient/request.go, httpclient/options.go, httpclient/client.go).
use glider_client_go.Common.{
  ℕ, ◌≡◌, ◌≢◌, ◌↔◌, inl, inr, Bool, true, not, ◌||◌, [], ◌++◌, Option, none, some, arith, Bytes,
  str_eq_iff, Result, ok, err, ◌>>=◌, ◌>>◌, reject_if, ltb, leb, ◌==◌, Option-cases, >>=-eq-ok,
}
use glider_client_go.Std.Time.{Instant}
use glider_client_go.Auth.{AuthError, generate}
use glider_client_go.HttpClient.{
  HttpError, failed_to_parse_url, failed_to_marshal_body, request_failed, Options, Client,
  validate_options, new, Request, create, HttpRequest, HttpResponse, http_request, status_error,
  do_request, or_fail, of_auth,
}

after_transport_iff :
    (o : Option HttpResponse) (resp : HttpResponse)
    → ((do
      r ← or_fail o request_failed
      reject_if (not (r.status == 200)) (status_error r.status)
      reject_if (ltb r.status 200 || leb 300 r.status) request_failed
      ok r)
        ≡ ok resp)
      ↔ ((o ≡ some resp) × (resp.status ≡ 200))
after_transport_iff none resp = ground arith
after_transport_iff (some r) resp = ground arith

-- `Do` hands on a response exactly if the request is built and sent and the status is 200; another
-- status of the 2xx class is an error like any other.
pub do_request_iff :
    (buildable : HttpRequest → Bool) (transport : HttpRequest → Option HttpResponse) (r : Request)
    (resp : HttpResponse)
    → (do_request buildable transport r ≡ ok resp) ↔ (
        (buildable (http_request r) ≡ true)
        × (transport (http_request r) ≡ some resp)
        × (resp.status ≡ 200))
unfolding do_request
do_request_iff buildable transport r resp =
    ground (arith, after_transport_iff (transport (http_request r)) resp)

-- `New` returns a client exactly for options with an address, an authenticator, a module and a
-- project, and the client has them; otherwise it panics.
new_iff :
    (o : Options) (c : Client)
    → (new o ≡ ok c) ↔ (
        (o.base_url ≢ [])
        × (o.module' ≢ [])
        × (o.project ≢ [])
        × (o.auth ≡ some c.auth)
        × (c.base_url ≡ o.base_url)
        × (c.module' ≡ o.module')
        × (c.project ≡ o.project))
unfolding new validate_options
new_iff o c = elim (Option-cases o.auth) [
  | inl e ↦
      ground (arith, e, str_eq_iff o.base_url [], str_eq_iff o.module' [], str_eq_iff o.project [])
  | inr (a, e) ↦
      ground (arith, e, str_eq_iff o.base_url [], str_eq_iff o.module' [], str_eq_iff o.project [])
]

pub or_fail-eq-ok {ℓ} :
    {A : Type ℓ} (o : Option A) (e : HttpError) (a : A) → or_fail o e ≡ ok a → o ≡ some a
or_fail-eq-ok none e a h = cc
or_fail-eq-ok (some b) e a h = cc

pub of_auth-eq-ok {ℓ} : {A : Type ℓ} (r : Result AuthError A) (a : A) → of_auth r ≡ ok a → r ≡ ok a
of_auth-eq-ok (ok b) a h = cc
of_auth-eq-ok (err e) a h = cc

module _ (mac : Bytes → Bytes → Bytes) (rand_read : ℕ → Option Bytes)
    (url_parse : Bytes → Option Bytes) where
  -- A created request carries the marshalled body and the signature of exactly that body.
  pub create_signs :
      (c : Client) (now : Instant) (method uri : Bytes) (marshalled : Option Bytes) (r : Request)
      → create mac rand_read url_parse c now method uri marshalled ≡ ok r
      → (marshalled ≡ some r.body)
        × (url_parse (c.base_url ++ uri) ≡ some r.url)
        × (generate mac rand_read c.auth now r.body ≡ ok r.hmac)
        × (r.method ≡ method)
        × (r.project ≡ c.project)
        × (r.module' ≡ c.module')
  unfolding create
  create_signs c now method uri marshalled r e =
      let (u, eu, rest) =
        >>=-eq-ok (or_fail (url_parse (c.base_url ++ uri)) failed_to_parse_url) _ e in
      let (body, eb, rest') = >>=-eq-ok (or_fail marshalled failed_to_marshal_body) _ rest in
      let (h, eh, made) = >>=-eq-ok (of_auth (generate mac rand_read c.auth now body)) _ rest' in
      ground (
        arith,
        made,
        or_fail-eq-ok _ _ _ eu,
        or_fail-eq-ok _ _ _ eb,
        of_auth-eq-ok (generate mac rand_read c.auth now body) h eh,
      )

-- ===== src/Broker/Request.antt =====
-- broker/request.go: the broker list from the control server, with retries. An attempt is what
-- the surroundings make of it; encoding/json at the response type is the parameter `unmarshal`.
pub mod Retries
pub mod Served
pub mod Samples
mod Examples
use glider_client_go.Common.{
  ℕ, zero, suc, ◌+◌, Bool, true, false, not, ◌&&◌, List, [], ◌∷◌, Option, none, some, arith, Bytes,
  lit, if◌then◌else◌, Result, ok, err, ◌>>=◌, ◌>>◌, reject_if, map,
}
use glider_client_go.Common.Int.{pos}
use glider_client_go.Std.Time.{Instant}
use glider_client_go.Auth.{Hmac}
use glider_client_go.Backoff.{http_fibo}
use glider_client_go.Broker.Info.{Broker}
use glider_client_go.HttpClient
use glider_client_go.HttpClient.{
  HttpError, Request, HttpRequest, HttpResponse, create, do_request, Response, or_fail, of_auth,
  validate_hmac, compare_request_nonce, get_nonce,
}

pub record RequestOptions : Type 0 where
  pub project : Bytes
  pub module' : Bytes
  pub subs : List Bytes
  pub pubs : List Bytes

pub record RequestRes : Type 0 where
  pub brokers : List Broker

-- What an attempt meets: the clock and the random bytes of the signature, net/http, and the clock at
-- the check of the response.
pub record Surroundings : Type 0 where
  pub now : Instant
  pub rand_read : ℕ → Option Bytes
  pub buildable : HttpRequest → Bool
  pub transport : HttpRequest → Option HttpResponse
  pub later : Instant

-- One turn of the loop: `Create`, `Do` on the request, and the clock at the check.
pub record Attempt : Type 0 where
  pub created : Result HttpError Request
  pub answer : Result HttpError HttpResponse
  pub now : Instant

abbrev pub is_some {ℓ} : {A : Type ℓ} → Option A → Bool
is_some none = false
is_some (some a) = true

module _ (mac : Bytes → Bytes → Bytes) (unmarshal : Bytes → Option (Response RequestRes))
    (client : HttpClient.Client) where
  -- The checks of a response to the request `req`.
  unfoldable pub check_response : Instant → Request → HttpResponse → Result HttpError (List Broker)
  check_response now req resp = do
    body ← or_fail resp.body HttpError.read_failed
    res ← or_fail (unmarshal body) HttpError.invalid_response_body
    reject_if (not res.success && is_some res.error) HttpError.internal_server_error
    of_auth (
        validate_hmac mac client now body (record {
          signature = resp.header (lit "X-Signature");
          timestamp = resp.header (lit "X-Timestamp");
          nonce = resp.header (lit "X-Nonce");
        }))
    reject_if (not (compare_request_nonce res (get_nonce req))) HttpError.invalid_request_nonce
    ok res.data'.brokers

  -- The loop over the attempts to come, with the seconds slept; `none` when no attempt is left.
  unfoldable pub request_loop : List Attempt → ℕ → Option (List ℕ × Result HttpError (List Broker))
  request_loop [] attempt_seconds = none
  request_loop (a ∷ rest) attempt_seconds =
      let again = request_loop rest (attempt_seconds + 1) in
      let delay = http_fibo (pos (attempt_seconds + 1)) in
      let retry : Option (List ℕ × Result HttpError (List Broker)) = elim again [
        | none ↦ none
        | some (delays, r) ↦ some (delay ∷ delays, r)
      ] in
      elim a.created [
        | err e ↦ retry
        | ok req ↦ elim a.answer [
          | err e ↦ retry
          | ok resp ↦ some ([], check_response a.now req resp)
        ]
      ]

  -- Request, over the outcomes of its attempts.
  unfoldable pub request : List Attempt → Option (List ℕ × Result HttpError (List Broker))
  request attempts = request_loop attempts 0

module _ (mac : Bytes → Bytes → Bytes) (unmarshal : Bytes → Option (Response RequestRes))
    (url_parse : Bytes → Option Bytes) (marshal : RequestOptions → Option Bytes)
    (client : HttpClient.Client) (opts : RequestOptions) where
  -- `client.Create` and `req.Do` of one turn.
  unfoldable pub attempt : Surroundings → Attempt
  attempt s =
      let created =
        create mac s.rand_read url_parse client s.now (lit "POST") (lit "/pubsub/client")
          (marshal opts) in
      record {
        created = created;
        answer = created >>= do_request s.buildable s.transport;
        now = s.later;
      }

  -- Request, in the given surroundings.
  unfoldable pub request_brokers :
      List Surroundings → Option (List ℕ × Result HttpError (List Broker))
  request_brokers surroundings = request mac unmarshal client (map attempt surroundings)

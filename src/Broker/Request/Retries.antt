-- ===== src/Broker/Request/Retries.antt =====
-- What the broker request returns, and how often it retries (broker/request.go).
use glider_client_go.Common.{
  ℕ, zero, suc, ◌+◌, ◌≡◌, ◌⊎◌, List, [], ◌∷◌, ◌++◌, Option, some, arith, Bytes, lit, ok, err,
  length, All,
}
use glider_client_go.Common.Int.{pos}
use glider_client_go.Auth.{Hmac}
use glider_client_go.Backoff.{http_fibo}
use glider_client_go.Broker.Info.{Broker}
use glider_client_go.HttpClient
use glider_client_go.HttpClient.{HttpError, Request, HttpResponse, Response, of_auth}
use glider_client_go.Broker.Request.{RequestRes, Attempt, check_response, request_loop, request}

-- The signature headers of a response.
abbrev pub response_hmac : HttpResponse → Hmac
response_hmac resp = record {
  signature = resp.header (lit "X-Signature");
  timestamp = resp.header (lit "X-Timestamp");
  nonce = resp.header (lit "X-Nonce");
}

module _ (mac : Bytes → Bytes → Bytes) (unmarshal : Bytes → Option (Response RequestRes))
    (client : HttpClient.Client) where
  -- An attempt that the loop repeats: the request was not created, or not answered.
  abbrev pub Fails : Attempt → Type 0
  Fails a =
      ((x : HttpError) × (a.created ≡ err x))
      ⊎ ((req : Request) × (x : HttpError) × (a.created ≡ ok req) × (a.answer ≡ err x))

  -- The delays before the attempts `k + 1` to `k + n`.
  abbrev pub delays : ℕ → ℕ → List ℕ
  delays zero k = []
  delays (suc n) k = http_fibo (pos (k + 1)) ∷ delays n (k + 1)

  request_loop_retries :
      (failures : List Attempt) (k : ℕ) (a : Attempt) (rest : List Attempt) (req : Request)
      (resp : HttpResponse)
      → All Fails failures
      → a.created ≡ ok req
      → a.answer ≡ ok resp
      → request_loop mac unmarshal client (failures ++ (a ∷ rest)) k
        ≡ some (delays (length failures) k, check_response mac unmarshal client a.now req resp)
  unfolding request_loop
  request_loop_retries [] k a rest req resp f c d = ground (arith, c, d)
  request_loop_retries (b ∷ failures) k a rest req resp f c d =
      ground (arith, f.0, request_loop_retries failures (k + 1) a rest req resp f.1 c d)

  -- However many attempts fail first, the loop sleeps the next HTTP delay after each, counted from
  -- 1, and ends with the check of the first response.
  pub request_retries :
      (failures : List Attempt) (a : Attempt) (rest : List Attempt) (req : Request)
      (resp : HttpResponse)
      → All Fails failures
      → a.created ≡ ok req
      → a.answer ≡ ok resp
      → request mac unmarshal client (failures ++ (a ∷ rest))
        ≡ some (delays (length failures) 0, check_response mac unmarshal client a.now req resp)
  unfolding request
  request_retries failures a rest req resp = request_loop_retries failures 0 a rest req resp

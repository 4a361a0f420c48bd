-- ===== src/Broker/Request/Examples.antt =====
-- The theorem on both ends of a request for the brokers (broker/request.go) at an input.
use glider_client_go.Common.{◌≡◌, refl, [], ◌∷◌, some, lit, ok, str_eq}
use glider_client_go.Common.Maps.{lookup}
use glider_client_go.HttpClient.{http_request}
use glider_client_go.HttpClient.Headers.{header_of, hmac_of}
use glider_client_go.Auth.{validate}
use glider_client_go.Broker.Request.{request_brokers}
use glider_client_go.Broker.Request.Retries.{delays}
use glider_client_go.Broker.Request.Served.{request_served}
use glider_client_go.Broker.Request.Samples.{
  sum_mac, sum_mac-IsMac, two_bytes, client, shard, success, parse, opts, marshal, at,
  response_hmac_sent, unanswered, served, sent, unanswered_lem, served_lem, response_lem,
  request-IsTimely, response-IsTimely,
}

request_served_example :
    (validate sum_mac client.auth
        (at 2)
        (http_request (sent (lit "1700000001"))).body
        (hmac_of (http_request (sent (lit "1700000001"))).headers)
      ≡ ok tt)
    × (header_of (lit "X-Project") (http_request (sent (lit "1700000001"))).headers
        ≡ client.project)
    × (header_of (lit "X-Module") (http_request (sent (lit "1700000001"))).headers ≡ client.module')
    × (request_brokers sum_mac parse some marshal client opts (unanswered ∷ served ∷ [])
        ≡ some (delays sum_mac parse client 1 0, ok (shard ∷ [])))
unfolding http_request lookup str_eq
request_served_example =
    request_served sum_mac parse some marshal client opts client.auth two_bytes (at 2) (at 3)
      (unanswered ∷ []) served [] (sent (lit "1700000001")) (lit "{}") response_hmac_sent success
      sum_mac-IsMac refl (unanswered_lem, tt) served_lem refl refl response_lem refl refl refl
      request-IsTimely response-IsTimely

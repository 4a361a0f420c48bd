-- ===== src/Broker/Request/Samples.antt =====
-- A request for the brokers with its answer (broker/request.go), for tests: the first attempt gets no
-- answer, and the second is served. The MAC is a sum.
use glider_client_go.Common.{
  ℕ, ◌+◌, ◌%◌, ◌≡◌, refl, inl, inr, true, false, [], ◌∷◌, Option, none, some, arith, Bytes, lit,
  length, ok, ◌*◌,
}
use glider_client_go.Common.Int.{pos}
use glider_client_go.Std.Buffers.{big_endian, make_bytes, copy_at}
use glider_client_go.Std.Hex.{encode_to_string}
use glider_client_go.Std.Decimal.{format_int}
use glider_client_go.Std.Time.{Instant, second, unix, unix_of}
use glider_client_go.Auth.{Hmac, generate, generate_nonce, generate_signature, build_payload}
use glider_client_go.Auth.RoundTrip.{IsMac}
use glider_client_go.HttpClient
use glider_client_go.HttpClient.{HttpError, Request, Response, create, do_request, http_request}
use glider_client_go.Broker.Info.{Broker}
use glider_client_go.Broker.Request.{RequestRes, RequestOptions, Surroundings, attempt}
use glider_client_go.Broker.Request.Retries.{Fails}
use glider_client_go.Broker.Request.Served.{IsTimely, signed_response, attempt_of}

abbrev pub sum_mac : Bytes → Bytes → Bytes
sum_mac secret payload = (length secret + length payload) % 256 ∷ []

pub sum_mac-IsMac : IsMac sum_mac
sum_mac-IsMac secret payload = (omega arith, tt)

abbrev pub two_bytes : ℕ → Option Bytes
two_bytes n = some (1 ∷ 2 ∷ [])

abbrev pub client : HttpClient.Client
client = record {
  base_url = lit "h";
  module' = lit "shop";
  project = lit "root";
  auth = record { skew = pos (30 * second); ttl = pos (60 * second); secret = lit "key" };
}

abbrev pub shard : Broker
shard = record { id = lit "a"; host = lit "h"; port = pos 443; insecure = false; cert_path = [] }

abbrev pub success : Response RequestRes
success = record {
  data' = record { brokers = shard ∷ [] };
  request_nonce = lit "0102";
  error = none;
  success = true;
}

abbrev pub parse : Bytes → Option (Response RequestRes)
parse body = some success

abbrev pub opts : RequestOptions
opts = record { project = lit "root"; module' = lit "shop"; subs = []; pubs = [] }

abbrev pub marshal : RequestOptions → Option Bytes
marshal o = some (lit "{}")

abbrev pub at : ℕ → Instant
at s = pos ((1_700_000_000 + s) * second)

abbrev pub response_hmac_sent : Hmac
response_hmac_sent = record {
  signature = lit "17";
  nonce = lit "0102";
  timestamp = lit "1700000003";
}

abbrev pub unanswered : Surroundings
unanswered = record {
  now = at 0;
  rand_read = two_bytes;
  buildable = λ r. true;
  transport = λ r. none;
  later = at 0;
}

abbrev pub served : Surroundings
served = record {
  now = at 1;
  rand_read = two_bytes;
  buildable = λ r. true;
  transport = λ r. some (signed_response response_hmac_sent (lit "{}"));
  later = at 5;
}

-- What is sent, with its timestamp.
abbrev pub sent : Bytes → Request
sent timestamp = record {
  project = lit "root";
  module' = lit "shop";
  url = lit "h/pubsub/client";
  method = lit "POST";
  body = lit "{}";
  hmac = record { signature = lit "17"; nonce = lit "0102"; timestamp = timestamp };
}

pub unanswered_lem :
    Fails sum_mac parse client (attempt_of sum_mac parse some marshal client opts unanswered)
unfolding attempt create do_request generate generate_nonce generate_signature build_payload
    encode_to_string format_int unix_of big_endian make_bytes copy_at
unanswered_lem = inr (sent (lit "1700000000"), HttpError.request_failed, refl, refl)

pub served_lem :
    (attempt_of sum_mac parse some marshal client opts served).created
    ≡ ok (sent (lit "1700000001"))
unfolding attempt create generate generate_nonce generate_signature build_payload encode_to_string
    format_int unix_of big_endian make_bytes copy_at
served_lem = refl

pub response_lem : generate sum_mac two_bytes client.auth (at 3) (lit "{}") ≡ ok response_hmac_sent
unfolding generate generate_nonce generate_signature build_payload encode_to_string format_int
    unix_of big_endian make_bytes copy_at
response_lem = refl

pub request-IsTimely : IsTimely client.auth (at 1) (at 2)
unfolding unix unix_of
request-IsTimely = (
  omega arith,
  omega arith,
  omega arith,
  omega arith,
  (inl (omega arith, omega arith, omega arith), inr (omega arith)),
)

pub response-IsTimely : IsTimely client.auth (at 3) (at 5)
unfolding unix unix_of
response-IsTimely = (
  omega arith,
  omega arith,
  omega arith,
  omega arith,
  (inl (omega arith, omega arith, omega arith), inr (omega arith)),
)

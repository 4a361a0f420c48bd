-- ===== src/HttpClient/Examples.antt =====
-- Tests of the package httpclient, and its theorems at inputs.
use glider_client_go.Common.{
  ℕ, ◌+◌, ◌*◌, ◌%◌, ◌≡◌, refl, true, [], ◌∷◌, Option, some, Bytes, lit, length, ok, err,
}
use glider_client_go.Common.Int.{pos}
use glider_client_go.Std.Buffers.{big_endian, make_bytes, copy_at}
use glider_client_go.Std.Hex.{encode_to_string}
use glider_client_go.Std.Decimal.{format_int}
use glider_client_go.Std.Time.{Instant, second, unix_of}
use glider_client_go.Auth.{Authhmac, generate, generate_nonce, generate_signature, build_payload}
use glider_client_go.HttpClient.{
  HttpError, Client, Request, create, HttpResponse, status_error, do_request,
}

abbrev sum_mac : Bytes → Bytes → Bytes
sum_mac secret payload = (length secret + length payload) % 256 ∷ []

abbrev two_bytes : ℕ → Option Bytes
two_bytes n = some (1 ∷ 2 ∷ [])

abbrev parsed : Bytes → Option Bytes
parsed u = some u

abbrev auth : Authhmac
auth = record { skew = pos (30 * second); ttl = pos (60 * second); secret = lit "key" }

abbrev client : Client
client = record { base_url = lit "h"; module' = lit "shop"; project = lit "root"; auth = auth }

abbrev now : Instant
now = pos (1_700_000_000 * second)

abbrev made : Request
made = record {
  project = lit "root";
  module' = lit "shop";
  url = lit "h/brokers";
  method = lit "POST";
  body = lit "{}";
  hmac = record { signature = lit "17"; nonce = lit "0102"; timestamp = lit "1700000000" };
}

made_lem :
    create sum_mac two_bytes parsed client now (lit "POST") (lit "/brokers") (some (lit "{}"))
    ≡ ok made
unfolding create generate generate_nonce generate_signature build_payload encode_to_string
    format_int unix_of big_endian make_bytes copy_at
made_lem = refl

abbrev created_response : HttpResponse
created_response = record { status = 201; header = λ _. []; body = some [] }

-- A response of status 201 is an error.
created_is_error :
    do_request (λ _. true) (λ _. some created_response) made ≡ err HttpError.internal_server_error
unfolding do_request status_error
created_is_error = refl

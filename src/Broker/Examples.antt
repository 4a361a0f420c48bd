-- ===== src/Broker/Examples.antt =====
-- Tests of broker/store.go and broker/request.go, and their theorems at inputs.
use glider_client_go.Common.{
  arith, ℕ, ◌+◌, ◌*◌, ◌%◌, ◌≡◌, inl, inr, refl, true, false, List, [], ◌∷◌, Option, none, some,
  Bytes, lit, str_eq, length, if◌then◌else◌, ok,
}
use glider_client_go.Common.Int.{pos}
use glider_client_go.Std.Buffers.{big_endian, make_bytes, copy_at}
use glider_client_go.Std.Hex.{encode_to_string}
use glider_client_go.Std.Decimal.{format_int}
use glider_client_go.Std.Time.{Instant, second, unix, unix_of}
use glider_client_go.Auth.{generate, generate_nonce, generate_signature, build_payload}
use glider_client_go.HttpClient
use glider_client_go.HttpClient.{HttpError, Request, HttpResponse, Response}
use glider_client_go.Broker.Info.{Broker}
use mathlib.Core.List.{Permᴰ}
use glider_client_go.Common.{map}
use glider_client_go.Common.Maps.{insert, lookup}
use glider_client_go.Broker.Store.{Store, new, set, done_loop}
use glider_client_go.Broker.Store.Laws.{IsKeyed, new-IsKeyed, set-IsKeyed}
use glider_client_go.Broker.Store.Order.{done_any_order}
use glider_client_go.Broker.Request.{RequestRes}
use glider_client_go.Auth.Window.{IsFresh}
use glider_client_go.Auth.RoundTrip.{IsMac}
use glider_client_go.Broker.Interceptor.{
  identity_headers, auth_interceptor, IsSignedFor, interceptor_accepted,
}
use glider_client_go.HttpClient.Headers.{header_of}

abbrev shard : Bytes → Broker
shard id = record { id = id; host = lit "h"; port = pos 443; insecure = false; cert_path = [] }

abbrev known : Store
known = set (set new (shard (lit "a"))) (shard (lit "b"))

-- The entries of `known`, the last one first.
abbrev visited : List (Bytes × Broker)
visited = (lit "b", shard (lit "b")) ∷ (lit "a", shard (lit "a")) ∷ []

known-IsKeyed : IsKeyed known
known-IsKeyed = set-IsKeyed _ (shard (lit "b")) (set-IsKeyed new (shard (lit "a")) new-IsKeyed)

visited-Permᴰ : Permᴰ visited known.brokers
unfolding new set insert str_eq
visited-Permᴰ = Permᴰ.swap refl refl

done_any_order_example :
    ((done_loop visited known.brokers).0 ≡ [])
    × Permᴰ (done_loop visited known.brokers).1 (map (λ e. e.1) known.brokers)
done_any_order_example = done_any_order known visited known-IsKeyed visited-Permᴰ

abbrev sum_mac : Bytes → Bytes → Bytes
sum_mac secret payload = (length secret + length payload) % 256 ∷ []

abbrev client : HttpClient.Client
client = record {
  base_url = lit "h";
  module' = lit "shop";
  project = lit "root";
  auth = record { skew = pos (30 * second); ttl = pos (60 * second); secret = lit "key" };
}

abbrev asked : Request
asked = record {
  project = lit "root";
  module' = lit "shop";
  url = lit "h/brokers";
  method = lit "POST";
  body = lit "{}";
  hmac = record { signature = lit "17"; nonce = lit "0102"; timestamp = lit "1700000000" };
}

-- The headers of a signed response with the nonce "ab".
abbrev headers : Bytes → Bytes
headers name =
    if str_eq name (lit "X-Nonce")
    then lit "ab"
    else if str_eq name (lit "X-Timestamp")
    then lit "1700000000"
    else lit "15"

abbrev answer : HttpResponse
answer = record { status = 200; header = headers; body = some (lit "{}") }

-- Every body lists one broker for the request with the nonce "0102".
abbrev parse : Bytes → Option (Response RequestRes)
parse body = some (record {
  data' = record { brokers = shard (lit "a") ∷ [] };
  request_nonce = lit "0102";
  error = none;
  success = true;
})

sum_mac-IsMac : IsMac sum_mac
sum_mac-IsMac secret payload = (omega arith, tt)

abbrev two_bytes : ℕ → Option Bytes
two_bytes n = some (1 ∷ 2 ∷ [])

abbrev now : Instant
now = pos (1_700_000_000 * second)

abbrev soon : Instant
soon = pos (1_700_000_005 * second)

abbrev stream_headers : List (Bytes × Bytes)
stream_headers =
    identity_headers (lit "root") (lit "shop") (lit "pod")
      (record { signature = lit "1d"; nonce = lit "0102"; timestamp = lit "1700000000" })

headers_lem :
    auth_interceptor sum_mac two_bytes client.auth (lit "root") (lit "shop") (lit "pod") now
    ≡ ok stream_headers
unfolding auth_interceptor generate generate_nonce generate_signature build_payload encode_to_string
    format_int unix_of big_endian make_bytes copy_at
headers_lem = refl

fresh : IsFresh client.auth soon (unix (unix_of now))
unfolding unix unix_of
fresh = (inl (omega arith, omega arith, omega arith), inr (omega arith))

-- Signed for the module "shop" of "root", accepted for the module "shopr" of "oot", of another pod.
abbrev forged_headers : List (Bytes × Bytes)
forged_headers =
    identity_headers (lit "oot") (lit "shopr") (lit "other")
      (record { signature = lit "1d"; nonce = lit "0102"; timestamp = lit "1700000000" })

interceptor_accepted_example :
    (header_of (lit "X-Module") stream_headers ≡ lit "shop")
    × (header_of (lit "X-Project") stream_headers ≡ lit "root")
    × (header_of (lit "X-Pod-ID") stream_headers ≡ lit "pod")
    × IsSignedFor sum_mac two_bytes client.auth soon stream_headers
    × IsSignedFor sum_mac two_bytes client.auth soon forged_headers
unfolding unix_of identity_headers lookup str_eq
interceptor_accepted_example =
    interceptor_accepted sum_mac two_bytes client.auth client.auth now soon (lit "root")
      (lit "shop") (lit "pod") stream_headers forged_headers sum_mac-IsMac headers_lem refl refl
      refl (omega arith) (omega arith) (omega arith) (omega arith) fresh

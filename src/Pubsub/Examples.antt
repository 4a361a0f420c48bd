-- ===== src/Pubsub/Examples.antt =====
-- Tests of the defaults in pubsub.go, and its theorem at an input.
use glider_client_go.Common.{
  ◌+◌, ◌*◌, ◌%◌, ◌≡◌, refl, [], ◌∷◌, none, Bytes, lit, str_eq, length, ok,
}
use glider_client_go.Common.Int.{pos, ◌-ℤ◌}
use glider_client_go.Std.Buffers.{big_endian, make_bytes, copy_at}
use glider_client_go.Std.Hex.{decode_string}
use glider_client_go.Std.Decimal.{parse_int}
use glider_client_go.Std.Time.{Instant, unix, second, sub_time, abs_duration, age_of}
use glider_client_go.Auth.{Hmac, new_auth, validate, check_skew, check_ttl, build_payload}
use glider_client_go.Pubsub.{Options, new, authenticator}

abbrev options : Options
options = record {
  project = [];
  module' = lit "shop";
  host = lit "h";
  secret = lit "key";
  subs = [];
  pubs = [];
  auth_options = none;
  certs = [];
}

root_project : (new options).project ≡ lit "root"
unfolding new str_eq
root_project = refl

abbrev sum_mac : Bytes → Bytes → Bytes
sum_mac secret payload = (length secret + length payload) % 256 ∷ []

abbrev request : Hmac
request = record { signature = lit "17"; nonce = lit "0102"; timestamp = lit "1700000000" }

abbrev soon : Instant
soon = pos (1_700_000_010 * second)

request_accepted : validate sum_mac (authenticator (new options)) soon (lit "{}") request ≡ ok tt
unfolding authenticator new new_auth validate parse_int check_skew check_ttl unix sub_time
    abs_duration age_of ◌-ℤ◌ decode_string build_payload big_endian make_bytes copy_at str_eq
request_accepted = refl

-- ===== src/Client/Launch/Examples.antt =====
-- The theorems on the loop of Start (client/client.go) at inputs: a response of two brokers.
use glider_client_go.Common.Int.{pos}
use glider_client_go.Common.{◌≡◌, refl, true, false, List, [], ◌∷◌, none, Bytes, lit}
use glider_client_go.Broker.Info.{Broker}
use glider_client_go.Broker.Store
use glider_client_go.Client.{Client, must_signal, connect, delete, reset}
use glider_client_go.Client.Launch.{Launch, begun, place, finished, Steps}
use glider_client_go.Client.Launch.Doubled.{first_start_doubles}

abbrev shard : Bytes → Broker
shard id = record { id = id; host = lit "h"; port = pos 443; insecure = false; cert_path = [] }

abbrev resetting : Client
resetting = record {
  pid = [];
  certs = [];
  brokers = Store.new;
  current_send = 0;
  online_brokers = [];
  online = false;
  reset_process = true;
  overstay_process = false;
}

abbrev response : List Broker
response = shard (lit "a") ∷ shard (lit "b") ∷ []

abbrev first : Launch
first = begun resetting response [] (lit "u")

abbrev with_a : Launch
with_a = record (place first (shard (lit "a")) (shard (lit "b") ∷ [])) {
  placed = none;
  started = lit "a" ∷ [];
}

-- "a" connects before "b" is set.
abbrev a_online : Launch
a_online = record with_a { client = connect with_a.client (lit "a") }

abbrev with_b : Launch
with_b = record (place a_online (shard (lit "b")) []) {
  placed = none;
  started = lit "b" ∷ lit "a" ∷ [];
}

abbrev calm : Client
calm = record resetting { reset_process = false }

first_start_doubles_example :
    (t : Launch) × Steps (begun calm response [] (lit "u")) t
    × (t.rest ≡ [])
    × (t.placed ≡ none)
    × (t.resets ≡ 1)
    × ((reset (finished t.client)).1 ≡ true)
    × ((id : Bytes) → must_signal (delete (finished t.client) id) ≡ false)
first_start_doubles_example =
    first_start_doubles calm (shard (lit "a")) (shard (lit "b") ∷ []) [] (lit "u") refl refl

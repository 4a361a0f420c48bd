-- ===== src/Client/Handshake/Examples.antt =====
-- The theorems of client/client.go on orders of calls, at inputs: a broker connects to a client that
-- is offline.
use glider_client_go.Common.Int.{pos}
use glider_client_go.Common.{
  ℕ, ◌<◌, ◌^◌, ◌≡◌, ◌⊎◌, refl, false, [], some, arith, lit, length, get_elem?, All, ok, err,
}
use glider_client_go.Broker.Info.{Broker}
use glider_client_go.Broker.Store
use glider_client_go.Client.{connect, next_broker, not_connected}
use glider_client_go.Client.RoundRobin.{picked}
use glider_client_go.Client.Handshake.{Goroutine, System, Steps, Step}
use glider_client_go.Client.Handshake.Invariant.{IsOffline, online_uniform, next_broker_bounds}

abbrev shard : Broker
shard = record { id = lit "a"; host = lit "h"; port = pos 443; insecure = false; cert_path = [] }

-- The broker is in the store, and not online.
abbrev offline : System
offline = record {
  client = record {
    pid = lit "pod";
    certs = [];
    brokers = Store.set Store.new shard;
    current_send = 5;
    online_brokers = [];
    online = false;
    reset_process = false;
    overstay_process = false;
  };
  goroutine = Goroutine.absent;
  deciding = 0;
  blocked = 0;
}

abbrev connected : System
connected = record offline { client = connect offline.client (lit "a") }

one_connects : Steps offline connected
one_connects = Steps.then_step Steps.none_yet (Step.connects (lit "a") refl)

offline-IsOffline : IsOffline offline
offline-IsOffline = (refl, refl, omega arith)

online_uniform_example : (bk : Broker) × All (λ b. b ≡ bk) connected.client.online_brokers
online_uniform_example = online_uniform offline-IsOffline one_connects

next_broker_bounds_example :
    ((length connected.client.online_brokers ≡ 0)
      × (next_broker connected.client ≡ some (err not_connected, connected.client)))
    ⊎ ((i : ℕ) × (bk : Broker) × (i < length connected.client.online_brokers)
        × (get_elem? connected.client.online_brokers i ≡ some bk)
        × (next_broker connected.client ≡ some (ok bk, picked connected.client))
        × ((picked connected.client).current_send < 2 ^ 64))
next_broker_bounds_example = next_broker_bounds offline-IsOffline one_connects

-- ===== src/Client/Delivery/Examples.antt =====
-- The theorems on the way of an event at inputs: broker "b" is listed and its stream gone, broker "a"
-- is connected.
use glider_client_go.Common.{
  ℕ, ◌≤◌, ◌≡◌, refl, Bool, true, false, [], ◌∷◌, Option, none, some, arith, Bytes, lit, str_eq,
  get_elem?, ok, if◌then◌else◌, Bool-cases, inl, inr,
}
use glider_client_go.Common.Int.{pos}
use glider_client_go.Std.Context.{background, with_value, value, key_eq}
use glider_client_go.Proto.{Message}
use glider_client_go.Metadata.{
  Heap, empty_md, meta_from_context, message_context, message_with_context,
}
use glider_client_go.Pub.{Pub, get_event, routed, base_message}
use glider_client_go.Broker.Info.{Broker}
use glider_client_go.Broker.Store
use glider_client_go.Broker.Connection
use glider_client_go.Broker.Connection.{Connection, idle, begin_start, done_broker, ready}
use glider_client_go.Client.{Client, next_broker}
use glider_client_go.Client.Online.{IsConsistent}
use glider_client_go.Client.Delivery.{
  takes, Refused, send_event, send_delivers, unserialisable_diverges,
}

abbrev shard : Bytes → Broker
shard id = record { id = id; host = lit "h"; port = pos 443; insecure = false; cert_path = [] }

abbrev two_online : Client
two_online = record {
  pid = lit "pod";
  certs = [];
  brokers = Store.new;
  current_send = 0;
  online_brokers = shard (lit "b") ∷ shard (lit "a") ∷ [];
  online = true;
  reset_process = false;
  overstay_process = false;
}

two_online-IsConsistent : IsConsistent two_online
two_online-IsConsistent = record { flag = refl; counter = omega arith }

abbrev live : Connection
live = ready 1 (begin_start idle)

abbrev conns : Bytes → Connection
conns id = if str_eq id (lit "a") then live else idle

live_reached : Connection.Steps idle live
live_reached =
    Connection.Steps.then_step
      (Connection.Steps.then_step Connection.Steps.none_yet Connection.Step.starting)
      (Connection.Step.readies 1 le)
  where
    le : 1 ≤ (begin_start idle).starts
    le = unfold begin_start done_broker in omega arith

conns_reached : (id : Bytes) → Connection.Steps idle (conns id)
conns_reached id = elim (Bool-cases (str_eq id (lit "a"))) [
  | inl same ↦ rw same live_reached
  | inr differ ↦ rw differ Connection.Steps.none_yet
]

abbrev all_sent : Bytes → ℕ → Message → Bool
all_sent id n msg = true

abbrev heap : Heap
heap = record { mds = λ p. empty_md; fresh = 0 }

abbrev event : Pub ℕ
event = record {
  id = lit "e1";
  pid = lit "pod";
  name = lit "order";
  project = [];
  payload = lit "ok";
  context = background;
  timestamp = pos 3;
  subscribed = false;
}

abbrev no_marshal : ℕ → Option Bytes
no_marshal n = none

event_lem : (get_event no_marshal heap event).1 ≡ some (base_message event)
unfolding get_event routed base_message meta_from_context message_context background value key_eq
    str_eq
event_lem = refl

a_is_connected : (conns (lit "a")).connected ≡ true
unfolding str_eq ready
a_is_connected = refl

send_delivers_example :
    (c' : Client) × (send_event all_sent conns no_marshal heap event 2 two_online
      ≡ some (ok tt, c'))
    × ((d : Client) × (i : ℕ) × (taker : Broker) × (n : ℕ) × Refused
          (takes all_sent conns (some (base_message event)))
          two_online
          d
        × (next_broker d ≡ some (ok taker, c'))
        × (get_elem? two_online.online_brokers i ≡ some taker)
        × ((conns taker.id).stream ≡ some n)
        × (all_sent taker.id n (base_message event) ≡ true))
send_delivers_example =
    send_delivers all_sent conns no_marshal heap event (base_message event) two_online 1
      (shard (lit "a")) conns_reached event_lem two_online-IsConsistent (omega arith) refl
      a_is_connected (λ n. refl) (omega arith)

-- With a typed context, that is not serialised.
abbrev typed_event : Pub ℕ
typed_event = record event { context = message_with_context background 5 }

typed_lem : message_context typed_event.context ≡ some 5
unfolding message_context message_with_context with_value background value key_eq str_eq
typed_lem = refl

unserialisable_diverges_example :
    send_event all_sent conns no_marshal heap typed_event 1000 two_online ≡ none
unserialisable_diverges_example =
    unserialisable_diverges all_sent conns no_marshal heap typed_event 5 1000 two_online typed_lem
      refl two_online-IsConsistent (omega arith)

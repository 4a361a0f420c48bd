-- ===== src/Client/Fleet/Examples.antt =====
-- The theorems on the client and its brokers at inputs: one broker, "a".
use glider_client_go.Common.{
  ℕ, ◌≡◌, refl, false, true, Bytes, [], ◌∷◌, none, some, arith, lit, str_eq,
}
use glider_client_go.Common.Int.{pos}
use glider_client_go.Common.Maps.{lookup}
use glider_client_go.Proto.{Message}
use glider_client_go.Broker.Info.{Broker}
use glider_client_go.Broker.Store
use glider_client_go.Broker.Connection.{begin_start, done_broker, ready}
use glider_client_go.Broker.Lifecycle
use glider_client_go.Broker.Lifecycle.{
  Phase, main, reader, Lifecycle, unused, set_phase, call_start, on_message,
}
use glider_client_go.Broker.Lifecycle.Notices.{notice}
use glider_client_go.Broker.Lifecycle.Recovery.{IsSteady}
use glider_client_go.Client.Handshake.{Goroutine}
use glider_client_go.Client.Fleet.{
  Fleet, set_life, connect_call, Steps, works, readies, none_yet, then_step,
}
use glider_client_go.Client.Fleet.Listed.{AreReported}
use glider_client_go.Client.Fleet.Invariant.{listed_reported}
use glider_client_go.Client.Fleet.Return.{CanReturn, late_disconnect}

abbrev names : ℕ → Bytes
names n = lit "a"

abbrev shard : Broker
shard = record { id = lit "a"; host = lit "h"; port = pos 443; insecure = false; cert_path = [] }

abbrev fresh : Fleet
fresh = record {
  system = record {
    client = record {
      pid = lit "pod";
      certs = [];
      brokers = record { brokers = (lit "a", shard) ∷ [] };
      current_send = 0;
      online_brokers = [];
      online = false;
      reset_process = false;
      overstay_process = false;
    };
    goroutine = Goroutine.absent;
    deciding = 0;
    blocked = 0;
  };
  lives = λ n. unused;
  calls = [];
}

abbrev opened : Lifecycle
opened = set_phase (set_phase (call_start unused) main 1 Phase.active) reader 1 Phase.active

abbrev started_fleet : Fleet
started_fleet = record fresh {
  lives = set_life (set_life fresh.lives 0 (call_start unused)) 0 opened;
}

abbrev ready_message : Message
ready_message = record {
  id = lit "m";
  name = lit "_.ready";
  project = [];
  segment = [];
  payload = [];
  sub = false;
  sub_id = [];
  sub_pod = [];
  sub_module = [];
  sub_broker = [];
  sub_project = [];
  error = [];
  context = none;
  timestamp = pos 0;
}

abbrev ready_life : Lifecycle
ready_life = record opened { conn = ready 1 opened.conn }

abbrev ready_fleet : Fleet
ready_fleet = record started_fleet {
  system = connect_call (lit "a") started_fleet.system;
  lives = set_life started_fleet.lives 0 ready_life;
}

becomes_ready : Steps names fresh ready_fleet
unfolding call_start begin_start done_broker notice on_message str_eq
becomes_ready =
    then_step
      (then_step (then_step none_yet (works 0 (Lifecycle.Step.first_start refl) refl))
        (works 0 (Lifecycle.Step.opens 1 refl) refl))
      (readies 0 (Lifecycle.Step.receives 1 ready_message (ready 1 opened.conn) refl refl) refl
        refl)

listed_reported_example :
    AreReported names ready_fleet.lives ready_fleet.calls ready_fleet.system.client
listed_reported_example = listed_reported names becomes_ready refl (refl, tt)

opened-IsSteady : IsSteady 1 (started_fleet.lives 0)
unfolding call_start begin_start done_broker
opened-IsSteady = record {
  alone = record {
    latest = refl;
    made = omega arith;
    main_active = refl;
    reader_active = refl;
    mains_still = λ j e. ground (arith, e);
    readers_still = λ j e. ground (arith, e);
  };
  uncancelled = refl;
  wanted = refl;
  early = omega arith;
}

a-CanReturn : CanReturn names 0 started_fleet 1 shard ready_message
unfolding Store.get lookup str_eq
a-CanReturn = record {
  steady = opened-IsSteady;
  stored = refl;
  keyed = refl;
  free = refl;
  named = refl;
}

late_disconnect_example :
    (t : Fleet) × Steps names started_fleet t
    × ((t.lives 0).conn.connected ≡ true)
    × ((t.lives 0).conn.stream ≡ some 2)
    × (t.system.client.online ≡ false)
    × (t.system.client.online_brokers ≡ [])
    × (t.calls ≡ [])
late_disconnect_example = late_disconnect names 0 started_fleet 1 shard ready_message a-CanReturn

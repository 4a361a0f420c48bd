-- ===== src/Broker/Lifecycle/Examples.antt =====
-- The theorems on the goroutines of a broker (broker/broker.go) at inputs.
use glider_client_go.Common.{
  ℕ, ◌+◌, ◌≡◌, ◌≢◌, refl, true, false, [], none, arith, lit, ◌==◌, if◌then◌else◌,
}
use glider_client_go.Common.Int.{pos}
use glider_client_go.Proto.{Message}
use glider_client_go.Broker.Connection
use glider_client_go.Broker.Connection.{
  idle, begin_start, done_broker, reconnect, restart, shutdown, send, panicked,
}
use glider_client_go.Broker.Lifecycle.{
  Phase, main, reader, Lifecycle, unused, set_phase, call_start, channel_failed, Step, Steps,
}
use glider_client_go.Broker.Lifecycle.Simulation.{lifecycle_simulates}
use glider_client_go.Broker.Lifecycle.Single.{one_worker}
use glider_client_go.Broker.Lifecycle.Final.{undialled, failures_last}
use glider_client_go.Broker.Lifecycle.Stale.{IsAlone, is_still, stale_ready}

abbrev waiting : Lifecycle
waiting = channel_failed 1 false (call_start unused)

abbrev again : Lifecycle
again = call_start (set_phase waiting main 1 (Phase.nested (waiting.conn.starts + 1)))

-- The first stream cannot be opened; the main goroutine waits, and starts again.
second_start : Steps unused again
unfolding call_start begin_start done_broker channel_failed restart reconnect
second_start =
    Steps.then_step
      (Steps.then_step (Steps.then_step Steps.none_yet (Step.first_start refl))
        (Step.channel_fails 1 false refl))
      (Step.starts_again main 1 1 refl)

lifecycle_simulates_example : Connection.Steps idle again.conn × (send again.conn none ≢ panicked)
lifecycle_simulates_example = lifecycle_simulates none second_start

-- One stream, that is open.
abbrev alone : Lifecycle
alone = record {
  conn = begin_start idle;
  mains = λ j. if j == 1 then Phase.active else Phase.unborn;
  readers = λ j. if j == 1 then Phase.active else Phase.unborn;
}

alone-IsAlone : IsAlone 1 alone
unfolding begin_start done_broker
alone-IsAlone = record {
  latest = refl;
  made = omega arith;
  main_active = refl;
  reader_active = refl;
  mains_still = λ j e. ground (arith, e);
  readers_still = λ j e. ground (arith, e);
}

abbrev ready_message : Message
ready_message = record {
  id = lit "m";
  name = lit "_.ready";
  project = [];
  segment = [];
  payload = [];
  sub = false;
  sub_id = [];
  sub_pod = [];
  sub_module = [];
  sub_broker = [];
  sub_project = [];
  error = [];
  context = none;
  timestamp = pos 0;
}

stale_ready_example :
    (t : Lifecycle) × Steps alone t
    × ((u : Lifecycle)
        → Steps t u
        → (u.conn.connected ≡ true)
          × ((j : ℕ) → is_still (u.mains j) ≡ true)
          × (u.conn.cancelled 1 ≡ true))
stale_ready_example = stale_ready 1 alone ready_message alone-IsAlone refl

-- The first stream is open.
abbrev open_one : Lifecycle
open_one = set_phase (set_phase (call_start unused) main 1 Phase.active) reader 1 Phase.active

first_stream : Steps unused open_one
unfolding call_start begin_start done_broker
first_stream =
    Steps.then_step (Steps.then_step Steps.none_yet (Step.first_start refl)) (Step.opens 1 refl)

abbrev one_number : ℕ
one_number = 1

one_worker_example :
    (reader ≡ reader) × (one_number ≡ one_number) × (one_number ≡ open_one.conn.starts)
one_worker_example = one_worker reader reader one_number one_number first_stream refl refl

first_call : Steps unused (call_start unused)
first_call = Steps.then_step Steps.none_yet (Step.first_start refl)

-- The dial of the first `Start` fails, and the client cancels the broker.
abbrev undialled_one : Lifecycle
undialled_one = set_phase (call_start unused) main 1 Phase.over

abbrev cancelled_one : Lifecycle
cancelled_one = record undialled_one { conn = done_broker undialled_one.conn }

failures_last_example :
    (cancelled_one.conn.starts ≡ (call_start unused).conn.starts)
    × (cancelled_one.conn.connected ≡ true → (call_start unused).conn.connected ≡ true)
unfolding call_start begin_start done_broker
failures_last_example =
    failures_last first_call (undialled 1 refl) (Steps.then_step Steps.none_yet Step.cancels)

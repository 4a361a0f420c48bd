-- ===== src/Broker/Connection/Examples.antt =====
-- Tests of the connection of a broker (broker/broker.go), and its theorems at inputs.
use glider_client_go.Common.{◌≤◌, ◌≡◌, ◌≢◌, refl, true, false, [], ◌∷◌, none, some, arith, length}
use glider_client_go.Backoff.{fibo, next_fibo, fibo_loop}
use glider_client_go.Broker.Connection.{
  Connection, Code, wait, Step, Steps, handle_error, idle, done_broker, begin_start, ready,
  init_reset_process, reconnect, restart,
}
use glider_client_go.Broker.Connection.Safety.{reset_is_final}
use glider_client_go.Broker.Connection.Reconnects.{waits, left, waits_bounded}

-- A first start.
abbrev started : Connection
started = begin_start idle

-- Ten waits, then none: the broker has given up.
ten_waits : waits 20 started ≡ 1 ∷ 2 ∷ 3 ∷ 5 ∷ 8 ∷ 13 ∷ 21 ∷ 24 ∷ 24 ∷ 24 ∷ []
unfolding waits restart reconnect begin_start done_broker fibo next_fibo fibo_loop
ten_waits = refl

short : started.duration ≤ 24
unfolding begin_start done_broker
short = omega arith

waits_bounded_example : length (waits 20 started) ≤ left started
waits_bounded_example = waits_bounded 20 started short

-- "_.reset" before "_.ready": the stream is nil.
reset_before_ready : init_reset_process started ≡ none
unfolding init_reset_process begin_start done_broker
reset_before_ready = refl

abbrev finished : Connection
finished = record (ready 1 started) { done = true }

reset_lem : init_reset_process (ready 1 started) ≡ some finished
unfolding init_reset_process ready
reset_lem = refl

-- The stream breaks after the reset, and breaks again.
reset_is_final_example :
    (handle_error Code.unavailable false (handle_error Code.unavailable false finished).0).1
    ≢ wait 1
reset_is_final_example =
    reset_is_final (ready 1 started) finished (handle_error Code.unavailable false finished).0
      Code.unavailable false 1 reset_lem
      (Steps.then_step Steps.none_yet (Step.fails Code.unavailable false))

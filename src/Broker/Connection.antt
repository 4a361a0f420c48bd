-- ===== src/Broker/Connection.antt =====
-- broker/broker.go: the connection of one broker. A stream and its context are numbered by the call
-- of `Start` that makes them; grpc says which messages and errors arrive, and in which order. A
-- function is one critical section, or what the code does between two waits.
pub mod Safety
pub mod Reconnects
mod Examples
use glider_client_go.Common.{
  ℕ, suc, ◌+◌, ◌≡◌, ◌≤◌, Bool, true, false, not, ◌||◌, Option, none, some, arith, ltb, ◌==◌,
  if◌then◌else◌,
}
use glider_client_go.Common.Int.{pos}
use glider_client_go.Proto.{Message}
use glider_client_go.Backoff.{fibo, duration_max}

-- The current context is that of the last start; there is none before the first.
pub record Connection : Type 0 where
  pub starts : ℕ
  pub cancelled : ℕ → Bool
  pub duration : ℕ
  pub connected : Bool
  pub done : Bool
  pub stream : Option ℕ
  pub overstay_count : ℕ

-- A broker as the server's list has it.
abbrev pub idle : Connection
idle = record {
  starts = 0;
  cancelled = λ _. false;
  duration = 0;
  connected = false;
  done = false;
  stream = none;
  overstay_count = 0;
}

abbrev pub overstay_attempts : ℕ
overstay_attempts = 2

abbrev pub cancel : Connection → ℕ → Connection
cancel s i = record s { cancelled = λ j. if j == i then true else s.cancelled j }

-- Done
unfoldable pub done_broker : Connection → Connection
done_broker s = if s.starts == 0 then s else cancel s s.starts

-- The head of `Start`: the previous context is cancelled, and a new one made.
unfoldable pub begin_start : Connection → Connection
begin_start s = record (done_broker s) { starts = s.starts + 1 }

-- "_.ready" on the stream `i`, before ConnectFunc.
unfoldable pub ready : ℕ → Connection → Connection
ready i s = record s { duration = 0; overstay_count = 0; connected = true; stream = some i }

-- The end of `Start`, once its context is done, before DisconnectFunc.
unfoldable pub shutdown : Connection → Connection
shutdown s = record s { connected = false; stream = none }

-- initResetProcess, before ResetFunc; `none` is the call of a method on a nil stream, which panics.
unfoldable pub init_reset_process : Connection → Option Connection
init_reset_process s = elim s.stream [ none ↦ none | some i ↦ some (record s { done = true }) ]

pub data Sent : Type 0 where
  disconnected event_failed panicked : Sent
  -- The message is handed to the stream.
  on_stream : ℕ → Message → Sent

-- Send, of what GetEvent returns.
unfoldable pub send : Connection → Option Message → Sent
send s event = if not s.connected then disconnected else elim event [
  | none ↦ event_failed
  | some msg ↦ elim s.stream [ none ↦ panicked | some i ↦ on_stream i msg ]
]

-- The status of a stream's error.
pub data Code : Type 0 where
  invalid_argument unauthenticated unavailable other_code : Code

-- How `restart` ends, or the seconds after which it starts again.
pub data Plan : Type 0 where
  gave_up handed_over not_wanted : Plan
  wait : ℕ → Plan

unfoldable pub reconnect : Connection → Connection × Plan
reconnect s =
    if s.starts == 0 || (s.cancelled s.starts || s.done)
    then (s, not_wanted)
    else (record s { duration = fibo (pos s.duration) }, wait (fibo (pos s.duration)))

-- restart, with the answer of OwerstayingFunc, which leaves the connection alone if it is false.
unfoldable pub restart : Bool → Connection → Connection × Plan
restart answer s =
    let counted = record s { overstay_count = s.overstay_count + 1 } in
    if s.duration == duration_max
    then if ltb overstay_attempts counted.overstay_count
      then (counted, gave_up)
      else if answer
      then (counted, handed_over)
      else reconnect counted
    else reconnect s

-- handleError
unfoldable pub handle_error : Code → Bool → Connection → Connection × Plan
handle_error Code.invalid_argument answer s = (s, gave_up)
handle_error Code.unauthenticated answer s = (s, gave_up)
handle_error Code.unavailable answer s = restart answer s
handle_error Code.other_code answer s = restart answer s

-- What may happen next, in any order: `Start` is called again, a stream that was made reports, an
-- error is handled and then its context cancelled, `Start` number `i` ends once its context is done,
-- and the client cancels.
pub data Step (s : Connection) : Connection → Type 0 where
  starting : Step s (begin_start s)
  readies : (i : ℕ) → i ≤ s.starts → Step s (ready i s)
  resets : (t : Connection) → init_reset_process s ≡ some t → Step s t
  fails : (code : Code) (answer : Bool) → Step s (handle_error code answer s).0
  closes : (i : ℕ) → i ≤ s.starts → Step s (cancel s i)
  ends : (i : ℕ) → s.cancelled i ≡ true → Step s (shutdown s)
  cancels : Step s (done_broker s)

pub data Steps (s : Connection) : Connection → Type 0 where
  none_yet : Steps s s
  then_step : {t u : Connection} → Steps s t → Step t u → Steps s u

-- ===== src/Broker/Connection/Safety.antt =====
-- What holds of a broker's connection in every order of events (broker/broker.go).
use glider_client_go.Common.{
  ℕ, ◌+◌, ◌≡◌, ◌≢◌, ◌≤◌, inl, inr, refl, Bool, true, false, Option, none, some, arith, Option-cases,
}
use glider_client_go.Proto.{Message}
use glider_client_go.Broker.Connection.{
  Connection, idle, done_broker, begin_start, ready, shutdown, init_reset_process, send, panicked,
  Code, not_wanted, wait, reconnect, restart, handle_error, Step, Steps,
}

abbrev pub has_stream : Option ℕ → Bool
has_stream none = false
has_stream (some i) = true

-- The flag and the stream go together.
abbrev pub IsMatched : Connection → Type 0
IsMatched s = s.connected ≡ has_stream s.stream

pub handle_error-parts :
    (code : Code) (answer : Bool) (s : Connection)
    → let t = (handle_error code answer s).0 in
      (t.connected ≡ s.connected) × (t.stream ≡ s.stream) × (t.done ≡ s.done)
unfolding handle_error restart reconnect
handle_error-parts Code.invalid_argument answer s = (refl, refl, refl)
handle_error-parts Code.unauthenticated answer s = (refl, refl, refl)
handle_error-parts Code.unavailable answer s = ground arith
handle_error-parts Code.other_code answer s = ground arith

Step-IsMatched : {s t : Connection} → Step s t → IsMatched s → IsMatched t
unfolding begin_start done_broker ready shutdown init_reset_process
Step-IsMatched {s} Step.starting h = ground arith
Step-IsMatched {s} (Step.readies i le) h = refl
Step-IsMatched {s} (Step.resets t e) h = elim (Option-cases s.stream) [
  | inl n ↦ cc (rw n at e)
  | inr (i, n) ↦ ground (arith, n, e)
]
Step-IsMatched {s} (Step.closes i le) h = h
Step-IsMatched {s} (Step.fails code answer) h = ground (arith, handle_error-parts code answer s)
Step-IsMatched {s} (Step.ends i e) h = refl
Step-IsMatched {s} Step.cancels h = ground arith

pub Steps-IsMatched : {s t : Connection} → Steps s t → IsMatched s → IsMatched t
Steps-IsMatched Steps.none_yet h = h
Steps-IsMatched (Steps.then_step r st) h = Step-IsMatched st (Steps-IsMatched r h)

-- In every order of starts, messages, errors and cancellations, `Send` never calls a method of a
-- stream that is not there.
pub send_never_panics :
    {s : Connection} (event : Option Message) → Steps idle s → send s event ≢ panicked
unfolding send
send_never_panics {s} event r e = elim (Option-cases s.stream) [
  | inl n ↦ ground (arith, n, e, Steps-IsMatched r refl, Option-cases event)
  | inr (i, n) ↦ ground (arith, n, e, Steps-IsMatched r refl, Option-cases event)
]

reconnect-done : (s : Connection) → s.done ≡ true → reconnect s ≡ (s, not_wanted)
unfolding reconnect
reconnect-done s d = ground (arith, d)

restart-done :
    (answer : Bool) (s : Connection) (seconds : ℕ)
    → s.done ≡ true
    → (restart answer s).1 ≢ wait seconds
unfolding restart reconnect
restart-done answer s seconds d e = ground (arith, d, e)

Step-done : {s t : Connection} → Step s t → s.done ≡ true → t.done ≡ true
unfolding begin_start done_broker ready shutdown init_reset_process
Step-done {s} Step.starting h = ground arith
Step-done {s} (Step.readies i le) h = h
Step-done {s} (Step.resets t e) h = elim (Option-cases s.stream) [
  | inl n ↦ cc (rw n at e)
  | inr (i, n) ↦ ground (arith, n, e)
]
Step-done {s} (Step.fails code answer) h = ground (arith, handle_error-parts code answer s)
Step-done {s} (Step.closes i le) h = h
Step-done {s} (Step.ends i e) h = h
Step-done {s} Step.cancels h = ground arith

Steps-done : {s t : Connection} → Steps s t → s.done ≡ true → t.done ≡ true
Steps-done Steps.none_yet h = h
Steps-done (Steps.then_step r st) h = Step-done st (Steps-done r h)

init_reset_process-done : (s t : Connection) → init_reset_process s ≡ some t → t.done ≡ true
unfolding init_reset_process
init_reset_process-done s t e = elim (Option-cases s.stream) [
  | inl n ↦ cc (rw n at e)
  | inr (i, n) ↦ ground (arith, n, e)
]

-- Once a broker has asked for a reset, its connection never waits to start again, whatever errors,
-- messages and starts come after: it is left to the client.
pub reset_is_final :
    (s t u : Connection) (code : Code) (answer : Bool) (seconds : ℕ)
    → init_reset_process s ≡ some t
    → Steps t u
    → (handle_error code answer u).1 ≢ wait seconds
unfolding handle_error
reset_is_final s t u code answer seconds e r =
    by_code code (Steps-done r (init_reset_process-done s t e))
  where
    by_code : (code : Code) → u.done ≡ true → (handle_error code answer u).1 ≢ wait seconds
    by_code Code.invalid_argument d = λ q. cc
    by_code Code.unauthenticated d = λ q. cc
    by_code Code.unavailable d = restart-done answer u seconds d
    by_code Code.other_code d = restart-done answer u seconds d

-- After a first start, and if the context to be made next is not cancelled: the end of a `Start`
-- whose context a later `Start` cancelled may come after the later stream is
-- ready: the connection then counts as lost, though its own context is not cancelled.
late_shutdown :
    (s : Connection)
    → s.starts ≢ 0
    → s.cancelled (s.starts + 1) ≡ false
    → let t = shutdown (ready (s.starts + 1) (begin_start s)) in
      Steps s t × (t.connected ≡ false) × (t.cancelled t.starts ≡ false)
unfolding shutdown ready begin_start done_broker
late_shutdown s n f = (
  Steps.then_step
      (Steps.then_step (Steps.then_step Steps.none_yet Step.starting)
        (Step.readies (s.starts + 1) le))
      (Step.ends s.starts gone),
  refl,
  ground arith,
)
  where
    le : s.starts + 1 ≤ (begin_start s).starts
    le = unfold begin_start in omega arith

    gone : (ready (s.starts + 1) (begin_start s)).cancelled s.starts ≡ true
    gone = unfold begin_start done_broker ready in ground arith

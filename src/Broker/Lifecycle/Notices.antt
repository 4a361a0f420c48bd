-- ===== src/Broker/Lifecycle/Notices.antt =====
-- What a broker's goroutines tell the client (broker/broker.go): the calls of ConnectFunc,
-- DisconnectFunc and ResetFunc.
use glider_client_go.Common.{
  ◌+◌, ◌≡◌, inl, inr, refl, ◌∙◌, ap, Bool, true, false, some, arith, lit, Bytes, str_eq, str_eq_iff,
  Bool-cases, if◌then◌else◌, ℕ,
}
use glider_client_go.Proto.{Message}
use glider_client_go.Broker.Connection.{
  Connection, done_broker, begin_start, ready, shutdown, Code, restart, handle_error,
}
use glider_client_go.Broker.Connection.Safety.{handle_error-parts}
use glider_client_go.Broker.Lifecycle.{
  Phase, Lifecycle, set_phase, finishing, call_start, on_message, channel_failed, recv_failed, Step,
}
use glider_client_go.Broker.Lifecycle.Simulation.{set_phase-conn, init_reset_process-eq}

pub data Notice : Type 0 where
  silent connects disconnects resets : Notice

-- By the name of a message.
abbrev pub notice_of : Bytes → Notice
notice_of name =
    if str_eq name (lit "_.ready")
    then connects
    else if str_eq name (lit "_.reset")
    then resets
    else silent

pub ready_noticed : (msg : Message) → msg.name ≡ lit "_.ready" → notice_of msg.name ≡ connects
ready_noticed msg e = ground (arith, e, str_eq_iff msg.name (lit "_.ready"))

-- The call that a step ends with.
unfoldable pub notice : {s t : Lifecycle} → Step s t → Notice
notice (Step.first_start e) = silent
notice (Step.dial_fails i e) = silent
notice (Step.channel_fails i answer e) = silent
notice (Step.opens i e) = silent
notice (Step.receives i msg conn e q) = notice_of msg.name
notice (Step.fails i code answer e) = silent
notice (Step.starts_again r i j e) = silent
notice (Step.returns r i k e q) = silent
notice (Step.stops r i j e q) = silent
notice (Step.closes i e) = silent
notice (Step.ends i e q) = disconnects
notice Step.cancels = silent

-- How the flag of a connection goes with the call.
abbrev pub Told : Notice → Bool → Bool → Type 0
Told silent before after = after ≡ before
Told resets before after = after ≡ before
Told connects before after = after ≡ true
Told disconnects before after = after ≡ false

restart-connected : (answer : Bool) (s : Connection) → (restart answer s).0.connected ≡ s.connected
unfolding handle_error
restart-connected answer s = (handle_error-parts Code.unavailable answer s).0

begin_start-connected : (s : Connection) → (begin_start s).connected ≡ s.connected
unfolding begin_start done_broker
begin_start-connected s = ground arith

on_message-Told :
    (i : ℕ) (msg : Message) (s t : Connection)
    → on_message i msg s ≡ some t
    → Told (notice_of msg.name) s.connected t.connected
unfolding on_message ready
on_message-Told i msg s t e = elim (Bool-cases (str_eq msg.name (lit "_.ready"))) [
  | inl a ↦ rw a (ground (arith, a, e))
  | inr a ↦ elim (Bool-cases (str_eq msg.name (lit "_.reset"))) [
    | inl b ↦ rw (a, b) (ground (arith, a, b, e, init_reset_process-eq s t))
    | inr b ↦ rw (a, b) (ground (arith, a, b, e))
  ]
]

-- The client is told of each change of the flag, by the step that makes it.
pub notice-Told :
    {s t : Lifecycle} (st : Step s t) → Told (notice st) s.conn.connected t.conn.connected
unfolding notice call_start channel_failed recv_failed
notice-Told {s} (Step.first_start e) = begin_start-connected s.conn
notice-Told {s} (Step.dial_fails i e) = refl
notice-Told {s} (Step.channel_fails i answer e) = restart-connected answer s.conn
notice-Told {s} (Step.opens i e) = refl
notice-Told {s} (Step.receives i msg conn e q) = on_message-Told i msg s.conn conn q
notice-Told {s} (Step.fails i code answer e) = (handle_error-parts code answer s.conn).0
notice-Told {s} (Step.starts_again r i j e) =
    begin_start-connected (set_phase s r i (Phase.nested (s.conn.starts + 1))).conn
    ∙ ap (λ (c : Connection). c.connected) (set_phase-conn s r i (Phase.nested (s.conn.starts + 1)))
notice-Told {s} (Step.returns r i k e q) =
    ap (λ (c : Connection). c.connected) (set_phase-conn s r i (finishing r))
notice-Told {s} (Step.stops r i j e q) =
    ap (λ (c : Connection). c.connected) (set_phase-conn s r i (finishing r))
notice-Told {s} (Step.closes i e) = refl
notice-Told {s} (Step.ends i e q) = unfold shutdown in refl
notice-Told {s} Step.cancels = unfold done_broker in ground arith

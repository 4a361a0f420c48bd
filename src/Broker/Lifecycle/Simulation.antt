-- ===== src/Broker/Lifecycle/Simulation.antt =====
-- The goroutines of Start (broker/broker.go) make only steps that Broker.Connection knows.
use native.Mathlib.Decide.{dec_lt}
use glider_client_go.Common.{
  Option-cases, ℕ, ◌+◌, ◌≤◌, ◌≡◌, ◌≢◌, ◌⊎◌, inl, inr, refl, sym, ◌∙◌, Bool, true, Option, some,
  arith, lit, str_eq, Bool-cases,
}
use glider_client_go.Proto.{Message}
use glider_client_go.Broker.Connection
use glider_client_go.Broker.Connection.{
  idle, cancel, done_broker, begin_start, ready, shutdown, init_reset_process, Code, Plan, gave_up,
  handed_over, not_wanted, wait, reconnect, restart, handle_error, send, panicked,
}
use glider_client_go.Broker.Connection.Safety.{send_never_panics}
use glider_client_go.Broker.Lifecycle.{
  Phase, Role, main, reader, Lifecycle, unused, phase_of, set_phase, finishing, call_start,
  on_message, channel_failed, recv_failed, Step, Steps,
}

-- Only calls of `Start` that were made have goroutines.
abbrev IsBorn : Lifecycle → Type 0
IsBorn s =
    (i : ℕ) → (s.conn.starts + 1 ≤ i) → (s.mains i ≡ Phase.unborn) × (s.readers i ≡ Phase.unborn)

handle_error-starts :
    (code : Code) (answer : Bool) (s : Connection.Connection)
    → (handle_error code answer s).0.starts ≡ s.starts
unfolding handle_error restart reconnect
handle_error-starts Code.invalid_argument answer s = refl
handle_error-starts Code.unauthenticated answer s = refl
handle_error-starts Code.unavailable answer s = ground arith
handle_error-starts Code.other_code answer s = ground arith

pub init_reset_process-eq :
    (s t : Connection.Connection) → init_reset_process s ≡ some t → t ≡ record s { done = true }
unfolding init_reset_process
init_reset_process-eq s t e = elim (Option-cases s.stream) [
  | inl n ↦ cc (rw n at e)
  | inr (i, n) ↦ ground (arith, n, e)
]

-- A message makes the connection ready, resets it, or leaves it alone.
pub on_message-cases :
    (i : ℕ) (msg : Message) (s t : Connection.Connection)
    → on_message i msg s ≡ some t
    → (t ≡ ready i s) ⊎ ((init_reset_process s ≡ some t) ⊎ (t ≡ s))
unfolding on_message
on_message-cases i msg s t e = elim (Bool-cases (str_eq msg.name (lit "_.ready"))) [
  | inl a ↦ inl (ground (arith, a, e))
  | inr a ↦ elim (Bool-cases (str_eq msg.name (lit "_.reset"))) [
    | inl b ↦ inr (inl (ground (arith, a, b, e)))
    | inr b ↦ inr (inr (ground (arith, a, b, e)))
  ]
]

-- It makes no context, and cancels none.
pub on_message-parts :
    (i : ℕ) (msg : Message) (s t : Connection.Connection)
    → on_message i msg s ≡ some t
    → (t.starts ≡ s.starts) × (t.cancelled ≡ s.cancelled)
unfolding ready
on_message-parts i msg s t e = elim (on_message-cases i msg s t e) [
  | inl q ↦ ground (arith, q)
  | inr (inl q) ↦ ground (arith, init_reset_process-eq s t q)
  | inr (inr q) ↦ ground (arith, q)
]

done_broker-starts : (s : Connection.Connection) → (done_broker s).starts ≡ s.starts
unfolding done_broker
done_broker-starts s = ground arith

begin_start-starts : (s : Connection.Connection) → (begin_start s).starts ≡ s.starts + 1
unfolding begin_start
begin_start-starts s = refl

set_phase-IsBorn :
    (s : Lifecycle) (r : Role) (i : ℕ) (p : Phase)
    → IsBorn s
    → i ≤ s.conn.starts
    → IsBorn (set_phase s r i p)
set_phase-IsBorn s main i p b h j g = ground (arith, b j g)
set_phase-IsBorn s reader i p b h j g = ground (arith, b j g)

unborn_phase :
    (s : Lifecycle) (r : Role) (i : ℕ)
    → IsBorn s
    → s.conn.starts + 1 ≤ i
    → phase_of s r i ≡ Phase.unborn
unborn_phase s main i b g = (b i g).0
unborn_phase s reader i b g = (b i g).1

-- A phase other than `unborn` shows that the call was made.
born :
    (s : Lifecycle) (r : Role) (i : ℕ) (p : Phase)
    → IsBorn s
    → phase_of s r i ≡ p
    → p ≢ Phase.unborn
    → i ≤ s.conn.starts
born s r i p b e n = elim (dec_lt s.conn.starts i) [
  | no h ↦ omega arith
  | yes h ↦ absurd (n (sym e ∙ unborn_phase s r i b (omega arith)))
]

-- As many starts, and the phases of one goroutine changed.
set_conn-IsBorn :
    (s : Lifecycle) (r : Role) (i : ℕ) (p : Phase) (c : Connection.Connection)
    → IsBorn s
    → i ≤ s.conn.starts
    → c.starts ≡ s.conn.starts
    → IsBorn (record (set_phase s r i p) { conn = c })
set_conn-IsBorn s main i p c b h e j g = ground (arith, b j, e, g, h)
set_conn-IsBorn s reader i p c b h e j g = ground (arith, b j, e, g, h)

call_start-IsBorn : (s : Lifecycle) → IsBorn s → IsBorn (call_start s)
unfolding call_start begin_start
call_start-IsBorn s b j g = ground (arith, b j, g)

Step-IsBorn : {s t : Lifecycle} → Step s t → IsBorn s → IsBorn t
unfolding channel_failed recv_failed
Step-IsBorn {s} (Step.first_start e) b = call_start-IsBorn s b
Step-IsBorn {s} (Step.dial_fails i e) b =
    set_phase-IsBorn s main i _ b (born s main i _ b e (λ q. cc))
Step-IsBorn {s} (Step.channel_fails i answer e) b =
    set_conn-IsBorn s main i _ (restart answer s.conn).0 b (born s main i _ b e (λ q. cc))
      (unfold handle_error in handle_error-starts Code.unavailable answer s.conn)
Step-IsBorn {s} (Step.opens i e) b =
    let le = born s main i _ b e (λ q. cc) in
    set_phase-IsBorn (set_phase s main i Phase.active) reader i _
      (set_phase-IsBorn s main i Phase.active b le) le
Step-IsBorn {s} (Step.receives i msg conn e q) b =
    λ j g. b j (omega (arith, on_message-parts i msg s.conn conn q))
Step-IsBorn {s} (Step.fails i code answer e) b =
    set_conn-IsBorn s reader i _ (handle_error code answer s.conn).0 b
      (born s reader i _ b e (λ q. cc)) (handle_error-starts code answer s.conn)
Step-IsBorn {s} (Step.starts_again r i j e) b =
    call_start-IsBorn _ (set_phase-IsBorn s r i _ b (born s r i _ b e (λ q. cc)))
Step-IsBorn {s} (Step.returns r i k e q) b = set_phase-IsBorn s r i _ b (born s r i _ b e (λ q. cc))
Step-IsBorn {s} (Step.stops r i j e q) b = set_phase-IsBorn s r i _ b (born s r i _ b e (λ q. cc))
Step-IsBorn {s} (Step.closes i e) b =
    set_conn-IsBorn s reader i _ (cancel s.conn i) b (born s reader i _ b e (λ q. cc)) refl
Step-IsBorn {s} (Step.ends i e q) b =
    set_conn-IsBorn s main i _ (shutdown s.conn) b (born s main i _ b e (λ q. cc))
      (unfold shutdown in refl)
Step-IsBorn {s} Step.cancels b = λ j g. b j (omega (arith, done_broker-starts s.conn))

-- A step of a goroutine is a step of the connection, or none.
abbrev Follows : Lifecycle → Lifecycle → Type 0
Follows s t = (t.conn ≡ s.conn) ⊎ Connection.Step s.conn t.conn

pub set_phase-conn :
    (s : Lifecycle) (r : Role) (i : ℕ) (p : Phase) → (set_phase s r i p).conn ≡ s.conn
set_phase-conn s main i p = refl
set_phase-conn s reader i p = refl

Step-Follows : {s t : Lifecycle} → Step s t → IsBorn s → Follows s t
unfolding call_start channel_failed recv_failed
Step-Follows {s} (Step.first_start e) b = inr Connection.Step.starting
Step-Follows {s} (Step.dial_fails i e) b = inl refl
Step-Follows {s} (Step.channel_fails i answer e) b =
    inr (unfold handle_error in Connection.Step.fails Code.unavailable answer)
Step-Follows {s} (Step.opens i e) b = inl refl
Step-Follows {s} (Step.receives i msg conn e q) b = elim (on_message-cases i msg s.conn conn q) [
  | inl g ↦ inr (rw g (Connection.Step.readies i (born s reader i _ b e (λ q. cc))))
  | inr (inl g) ↦ inr (Connection.Step.resets conn g)
  | inr (inr g) ↦ inl g
]
Step-Follows {s} (Step.fails i code answer e) b = inr (Connection.Step.fails code answer)
Step-Follows {s} (Step.starts_again r i j e) b =
    inr (rw (set_phase-conn s r i (Phase.nested (s.conn.starts + 1))) Connection.Step.starting)
Step-Follows {s} (Step.returns r i k e q) b = inl (set_phase-conn s r i (finishing r))
Step-Follows {s} (Step.stops r i j e q) b = inl (set_phase-conn s r i (finishing r))
Step-Follows {s} (Step.closes i e) b =
    inr (Connection.Step.closes i (born s reader i _ b e (λ q. cc)))
Step-Follows {s} (Step.ends i e q) b = inr (Connection.Step.ends i q)
Step-Follows {s} Step.cancels b = inr Connection.Step.cancels

Steps-IsBorn : {s t : Lifecycle} → Steps s t → IsBorn s → IsBorn t
Steps-IsBorn Steps.none_yet b = b
Steps-IsBorn (Steps.then_step r st) b = Step-IsBorn st (Steps-IsBorn r b)

from_unused : {s t : Lifecycle} → Steps s t → IsBorn s → Connection.Steps s.conn t.conn
from_unused Steps.none_yet b = Connection.Steps.none_yet
from_unused {s} (Steps.then_step r st) b = elim (Step-Follows st (Steps-IsBorn r b)) [
  | inl e ↦ rw e (from_unused r b)
  | inr c ↦ Connection.Steps.then_step (from_unused r b) c
]

-- Whatever the goroutines of a broker do, from its first `Start` on, its connection makes only steps
-- of Broker.Connection; so `Send` never panics there either.
pub lifecycle_simulates :
    {t : Lifecycle} (event : Option Message)
    → Steps unused t
    → Connection.Steps idle t.conn × (send t.conn event ≢ panicked)
lifecycle_simulates event r =
    let c = from_unused r (λ i g. (refl, refl)) in (c, send_never_panics event c)

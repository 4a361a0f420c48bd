-- ===== src/Broker/Lifecycle.antt =====
-- broker/broker.go: the goroutines of Start. Each call of `Start` has a number, a main goroutine and,
-- once its stream is open, a read goroutine. A goroutine that restarts waits for its timer or for the
-- context that was the current one when it decided, and then runs the next `Start` itself.
pub mod Simulation
pub mod Contexts
pub mod Stale
pub mod Single
pub mod Final
pub mod Notices
pub mod Recovery
mod Examples
use glider_client_go.Common.{
  ℕ, ◌+◌, ◌≡◌, Bool, true, false, not, ◌&&◌, ◌||◌, Option, none, some, arith, lit, Bytes, str_eq,
  ◌==◌, if◌then◌else◌,
}
use glider_client_go.Proto.{Message}
use glider_client_go.Broker.Connection.{
  Connection, idle, cancel, done_broker, begin_start, ready, shutdown, init_reset_process, Code,
  Plan, gave_up, handed_over, not_wanted, wait, restart, handle_error,
}

-- A main goroutine opens its stream and is then active until its context is done; a read goroutine is
-- active while it reads, and closes its context at last. `waiting` names the context of the select.
pub data Phase : Type 0 where
  unborn opening active closing over : Phase
  waiting nested : ℕ → Phase

pub data Role : Type 0 where
  main reader : Role

pub record Lifecycle : Type 0 where
  pub conn : Connection
  pub mains : ℕ → Phase
  pub readers : ℕ → Phase

abbrev pub unused : Lifecycle
unused = record { conn = idle; mains = λ _. Phase.unborn; readers = λ _. Phase.unborn }

abbrev pub phase_of : Lifecycle → Role → ℕ → Phase
phase_of s main i = s.mains i
phase_of s reader i = s.readers i

abbrev pub update : (ℕ → Phase) → ℕ → Phase → ℕ → Phase
update f i p j = if j == i then p else f j

abbrev pub set_phase : Lifecycle → Role → ℕ → Phase → Lifecycle
set_phase s main i p = record s { mains = update s.mains i p }
set_phase s reader i p = record s { readers = update s.readers i p }

-- What follows a wait, or a nested `Start`: the read goroutine cancels its context.
abbrev pub finishing : Role → Phase
finishing main = Phase.over
finishing reader = Phase.closing

abbrev pub planned : Role → ℕ → Plan → Phase
planned r current (wait d) = Phase.waiting current
planned r current gave_up = finishing r
planned r current handed_over = finishing r
planned r current not_wanted = finishing r

-- The call of `Start`, up to the dial.
unfoldable pub call_start : Lifecycle → Lifecycle
call_start s = record s {
  conn = begin_start s.conn;
  mains = update s.mains (s.conn.starts + 1) Phase.opening;
}

-- The switch on the name of a message: `none` is a panic.
unfoldable pub on_message : ℕ → Message → Connection → Option Connection
on_message i msg s =
    if str_eq msg.name (lit "_.ready")
    then some (ready i s)
    else if str_eq msg.name (lit "_.reset")
    then init_reset_process s
    else some s

-- An error of Channel: `restart`, in the main goroutine.
unfoldable pub channel_failed : ℕ → Bool → Lifecycle → Lifecycle
channel_failed i answer s =
    let (conn, plan) = restart answer s.conn in
    record (set_phase s main i (planned main s.conn.starts plan)) { conn = conn }

-- An error of Recv: `handleError`, in the read goroutine.
unfoldable pub recv_failed : ℕ → Code → Bool → Lifecycle → Lifecycle
recv_failed i code answer s =
    let (conn, plan) = handle_error code answer s.conn in
    record (set_phase s reader i (planned reader s.conn.starts plan)) { conn = conn }

pub data Step (s : Lifecycle) : Lifecycle → Type 0 where
  first_start : s.conn.starts ≡ 0 → Step s (call_start s)
  dial_fails : (i : ℕ) → s.mains i ≡ Phase.opening → Step s (set_phase s main i Phase.over)
  channel_fails :
      (i : ℕ) (answer : Bool) → s.mains i ≡ Phase.opening → Step s (channel_failed i answer s)
  opens :
      (i : ℕ)
      → s.mains i ≡ Phase.opening
      → Step s (set_phase (set_phase s main i Phase.active) reader i Phase.active)
  receives :
      (i : ℕ) (msg : Message) (conn : Connection)
      → s.readers i ≡ Phase.active
      → on_message i msg s.conn ≡ some conn
      → Step s (record s { conn = conn })
  fails :
      (i : ℕ) (code : Code) (answer : Bool)
      → s.readers i ≡ Phase.active
      → Step s (recv_failed i code answer s)
  -- The timer fires, and `Start` is called again.
  starts_again :
      (r : Role) (i j : ℕ)
      → phase_of s r i ≡ Phase.waiting j
      → Step s (call_start (set_phase s r i (Phase.nested (s.conn.starts + 1))))
  returns :
      (r : Role) (i k : ℕ)
      → phase_of s r i ≡ Phase.nested k
      → s.mains k ≡ Phase.over
      → Step s (set_phase s r i (finishing r))
  stops :
      (r : Role) (i j : ℕ)
      → phase_of s r i ≡ Phase.waiting j
      → s.conn.cancelled j ≡ true
      → Step s (set_phase s r i (finishing r))
  closes :
      (i : ℕ)
      → s.readers i ≡ Phase.closing
      → Step s (record (set_phase s reader i Phase.over) { conn = cancel s.conn i })
  -- The context is done: the main goroutine clears the connection and calls DisconnectFunc.
  ends :
      (i : ℕ)
      → s.mains i ≡ Phase.active
      → s.conn.cancelled i ≡ true
      → Step s (record (set_phase s main i Phase.over) { conn = shutdown s.conn })
  -- Done, from the client.
  cancels : Step s (record s { conn = done_broker s.conn })

pub data Steps (s : Lifecycle) : Lifecycle → Type 0 where
  none_yet : Steps s s
  then_step : {t u : Lifecycle} → Steps s t → Step t u → Steps s u

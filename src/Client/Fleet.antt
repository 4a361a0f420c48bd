-- ===== src/Client/Fleet.antt =====
-- The client and its brokers together (client/client.go, broker/broker.go): ConnectFunc, DisconnectFunc
-- and ResetFunc, which Start of client/client.go hands to each broker, join the goroutines of
-- Broker.Lifecycle to the calls of Client.Handshake. The broker with the number `n` has the ID
-- `names n`; one that is not made yet is unused. ConnectFunc runs with Broker.rw held, and so with
-- the step that sets the flag; the other two wait in `calls` until they get the mutex. Done, the
-- first Start of a broker and the answer of OwerstayingFunc come whenever they may.
pub mod Parts
pub mod Listed
pub mod Invariant
pub mod Picked
pub mod Return
mod Examples
use glider_client_go.Common.{ℕ, ◌+◌, ◌≡◌, List, ◌∷◌, ◌++◌, Bytes, ◌==◌, if◌then◌else◌}
use glider_client_go.Broker.Lifecycle
use glider_client_go.Broker.Lifecycle.{Lifecycle}
use glider_client_go.Broker.Lifecycle.Notices.{notice, silent, connects, disconnects, resets}
use glider_client_go.Client.{delete, connect, Client}
use glider_client_go.Client.Handshake
use glider_client_go.Client.Handshake.{System, call_reset}

-- A call of `disconnect` or `reset` that a broker has made.
pub data Call : Type 0 where
  disconnecting : Bytes → Call
  resetting : Call

pub record Fleet : Type 0 where
  pub system : System
  pub lives : ℕ → Lifecycle
  pub calls : List Call

-- One broker is in another state.
abbrev pub set_life : (ℕ → Lifecycle) → ℕ → Lifecycle → ℕ → Lifecycle
set_life lives n l m = if m == n then l else lives m

-- A step of the client that no broker asks for.
abbrev pub IsOwn : {s t : System} → Handshake.Step s t → Type 0
IsOwn (Handshake.Step.resets b) = ⊥
IsOwn (Handshake.Step.deletes id b) = ⊥
IsOwn (Handshake.Step.connects id b) = ⊥
IsOwn _ = Unit {0}

-- `connect`, from ConnectFunc.
abbrev pub connect_call : Bytes → System → System
connect_call id s = record s { client = connect s.client id }

-- `disconnect`, up to its guard.
abbrev pub disconnect_call : Bytes → System → System
disconnect_call id s = record s { client = delete s.client id; deciding = s.deciding + 1 }

module _ (names : ℕ → Bytes) where
  pub data Step (s : Fleet) : Fleet → Type 0 where
    works :
        (n : ℕ) {l : Lifecycle} (st : Lifecycle.Step (s.lives n) l)
        → notice st ≡ silent
        → Step s (record s { lives = set_life s.lives n l })
    readies :
        (n : ℕ) {l : Lifecycle} (st : Lifecycle.Step (s.lives n) l)
        → notice st ≡ connects
        → s.system.blocked ≡ 0
        → Step s
            (record s { system = connect_call (names n) s.system; lives = set_life s.lives n l })
    ends :
        (n : ℕ) {l : Lifecycle} (st : Lifecycle.Step (s.lives n) l)
        → notice st ≡ disconnects
        → Step s
            (record s { lives = set_life s.lives n l; calls = disconnecting (names n) ∷ s.calls })
    asks :
        (n : ℕ) {l : Lifecycle} (st : Lifecycle.Step (s.lives n) l)
        → notice st ≡ resets
        → Step s (record s { lives = set_life s.lives n l; calls = resetting ∷ s.calls })
    -- A call gets the mutex, in any order.
    leaves :
        (front : List Call) (id : Bytes) (back : List Call)
        → s.calls ≡ front ++ (disconnecting id ∷ back)
        → s.system.blocked ≡ 0
        → Step s (record s { system = disconnect_call id s.system; calls = front ++ back })
    begins_reset :
        (front back : List Call)
        → s.calls ≡ front ++ (resetting ∷ back)
        → s.system.blocked ≡ 0
        → Step s (record s { system = call_reset s.system; calls = front ++ back })
    manages :
        {t : System} (st : Handshake.Step s.system t) → IsOwn st → Step s (record s { system = t })

  pub data Steps (s : Fleet) : Fleet → Type 0 where
    none_yet : Steps s s
    then_step : {t u : Fleet} → Steps s t → Step t u → Steps s u

-- ===== src/Client/Locks.antt =====
-- The mutexes of broker/broker.go, broker/store.go and client/client.go, and the calls that hold one
-- while they take another. A goroutine is the list of the lock operations that it still makes. A
-- writer that waits keeps no reader out here, as it would in Go, so that what is stuck here is stuck
-- there.
pub mod Circle
pub mod Deadlock
pub mod Exclusion
pub mod Sections
pub mod Calls
mod Examples
use glider_client_go.Common.{
  ℕ, ◌≡◌, Bool, true, false, not, ◌&&◌, ◌||◌, List, [], ◌∷◌, arith, Bytes, str_eq, ◌==◌,
  if◌then◌else◌,
}

-- Broker.rw by the ID, Store.rw, and Client.rw.
pub data Lock : Type 0 where
  broker_rw : Bytes → Lock
  store_rw client_rw : Lock

unfoldable pub lock_eq : Lock → Lock → Bool
lock_eq (broker_rw a) (broker_rw b) = str_eq a b
lock_eq store_rw store_rw = true
lock_eq client_rw client_rw = true
lock_eq _ _ = false

pub data Op : Type 0 where
  lock rlock unlock : Lock → Op

pub record Hold : Type 0 where
  pub owner : ℕ
  pub writes : Bool

pub record Locks : Type 0 where
  pub holds : Lock → List Hold
  pub scripts : ℕ → List Op

-- Whether a mutex with these holders is given to a writer or to a reader.
unfoldable pub allowed : Bool → List Hold → Bool
allowed writes [] = true
allowed writes (h ∷ hs) = not writes && (not h.writes && allowed writes hs)

unfoldable pub drop_hold : ℕ → List Hold → List Hold
drop_hold i [] = []
drop_hold i (h ∷ hs) = if h.owner == i then hs else h ∷ drop_hold i hs

-- The goroutine `i` with `rest` to do, and other holders of `m`.
abbrev pub put : Locks → ℕ → List Op → Lock → List Hold → Locks
put s i rest m hs = record {
  holds = λ n. if lock_eq n m then hs else s.holds n;
  scripts = λ j. if j == i then rest else s.scripts j;
}

unfoldable pub perform : Locks → ℕ → Op → List Op → Locks
perform s i (lock m) rest =
    if allowed true (s.holds m)
    then put s i rest m (record { owner = i; writes = true } ∷ s.holds m)
    else s
perform s i (rlock m) rest =
    if allowed false (s.holds m)
    then put s i rest m (record { owner = i; writes = false } ∷ s.holds m)
    else s
perform s i (unlock m) rest = put s i rest m (drop_hold i (s.holds m))

-- Goroutine `i` makes its next operation, or waits.
unfoldable pub move : ℕ → Locks → Locks
move i s = elim (s.scripts i) [ [] ↦ s | op ∷ rest ↦ perform s i op rest ]

pub data Moves (s : Locks) : Locks → Type 0 where
  here : Moves s s
  next : {t : Locks} → Moves s t → (i : ℕ) → Moves s (move i t)

-- Client.connect, called as ConnectFunc: Store.Get, then Client.set.
unfoldable pub connect_script : List Op → List Op
connect_script rest = rlock store_rw ∷ unlock store_rw ∷ lock client_rw ∷ unlock client_rw ∷ rest

-- The case "_.ready" of the read loop.
unfoldable pub ready_script : Bytes → List Op → List Op
ready_script id rest = lock (broker_rw id) ∷ connect_script (unlock (broker_rw id) ∷ rest)

-- Broker.Done of each broker.
unfoldable pub cancel_script : List Bytes → List Op → List Op
cancel_script [] rest = rest
cancel_script (id ∷ ids) rest =
    rlock (broker_rw id) ∷ unlock (broker_rw id) ∷ cancel_script ids rest

-- Store.Done
unfoldable pub done_script : List Bytes → List Op → List Op
done_script ids rest = lock store_rw ∷ cancel_script ids (unlock store_rw ∷ rest)

-- Client.owerstaying, up to Start.
unfoldable pub owerstaying_script : List Bytes → List Op → List Op
owerstaying_script ids rest = lock client_rw ∷ done_script ids rest

-- ===== src/Client/Handshake.antt =====
-- client/client.go: reset, disconnect and Start, which meet at the mutex `rw` and at the unbuffered
-- channel stopResetProcess. A call of `disconnect` that waits on the channel holds the read lock, so
-- that no other call gets the write lock.
pub mod Invariant
pub mod Keyed
pub mod Resets
mod Examples
use glider_client_go.Common.{
  ℕ, ◌+◌, ◌-◌, ◌≡◌, ◌≢◌, Bool, true, false, List, [], Option, some, arith, Bytes, Result, ok, err,
  Option-cases, inl, inr, not, ◌==◌, length, ◌&&◌, if◌then◌else◌,
}
use glider_client_go.Broker.Info.{Broker}
use glider_client_go.Broker.Store
use glider_client_go.Client.RoundRobin.{next_broker_parts}
use glider_client_go.Client.{
  Client, must_signal, without, delete, connect, reset, begin_owerstaying, start, ClientError,
  next_broker,
}

-- Where the goroutine of `reset` stands: not started, in its select, past it, or past `Done`.
pub data Goroutine : Type 0 where
  absent selecting restarting starting : Goroutine

pub record System : Type 0 where
  pub client : Client
  pub goroutine : Goroutine
  -- calls of `disconnect` between `delete` and the guard
  pub deciding : ℕ
  -- calls of `disconnect` that wait on the channel
  pub blocked : ℕ

-- `reset`
unfoldable pub call_reset : System → System
call_reset s =
    let (c, started) = reset s.client in
    record s { client = c; goroutine = if started then Goroutine.selecting else s.goroutine }

-- The guard of `disconnect` and the send: the goroutine takes it if it is in its select.
unfoldable pub decide_signal : System → System
decide_signal s =
    if must_signal s.client
    then elim s.goroutine [
      | Goroutine.selecting ↦ record s {
        goroutine = Goroutine.restarting;
        deciding = s.deciding - 1;
      }
      | Goroutine.absent ↦ record s { blocked = s.blocked + 1; deciding = s.deciding - 1 }
      | Goroutine.starting ↦ record s { blocked = s.blocked + 1; deciding = s.deciding - 1 }
      | Goroutine.restarting ↦ record s { blocked = s.blocked + 1; deciding = s.deciding - 1 }
    ]
    else record s { deciding = s.deciding - 1 }

-- `c.brokers.Done()`, of the store alone.
unfoldable pub done_brokers : Client → Client
done_brokers c = record c { brokers = (Store.done c.brokers).0 }

pub data Step (s : System) : System → Type 0 where
  resets : s.blocked ≡ 0 → Step s (call_reset s)
  -- `disconnect`, in its two critical sections.
  deletes :
      (id : Bytes)
      → s.blocked ≡ 0
      → Step s (record s { client = delete s.client id; deciding = s.deciding + 1 })
  decides : s.deciding ≢ 0 → Step s (decide_signal s)
  connects : (id : Bytes) → s.blocked ≡ 0 → Step s (record s { client = connect s.client id })
  -- The timer of the goroutine.
  expires :
      s.goroutine ≡ Goroutine.selecting → Step s (record s { goroutine = Goroutine.restarting })
  -- It cancels the brokers, and then its `Start` returns.
  cancels :
      s.goroutine ≡ Goroutine.restarting
      → Step s (record s { client = done_brokers s.client; goroutine = Goroutine.starting })
  restarts :
      (response : List Broker) (hostname uuid : Bytes)
      → s.goroutine ≡ Goroutine.starting
      → Step s (record s {
        client = start s.client response hostname uuid;
        goroutine = Goroutine.absent;
      })
  overstays :
      (response : List Broker) (hostname uuid : Bytes)
      → s.blocked ≡ 0
      → (begin_owerstaying s.client).1 ≡ true
      → Step s (record s {
        client = start (done_brokers (begin_owerstaying s.client).0) response hostname uuid;
      })
  -- `nextBroker`, called by `send`.
  picks :
      (r : Result ClientError Broker) (c : Client)
      → next_broker s.client ≡ some (r, c)
      → Step s (record s { client = c })

pub data Steps (s : System) : System → Type 0 where
  none_yet : Steps s s
  then_step : {t u : System} → Steps s t → Step t u → Steps s u

-- A call waits on the channel, and the client is online or not.
abbrev Stands : Bool → System → Type 0
Stands online s = (s.blocked ≢ 0) × (s.client.online ≡ online)

Step-Stands : {s t : System} (online : Bool) → Step s t → Stands online s → Stands online t
unfolding decide_signal start done_brokers
Step-Stands online (Step.resets b) h = absurd (h.0 b)
Step-Stands online (Step.deletes id b) h = absurd (h.0 b)
Step-Stands online (Step.connects id b) h = absurd (h.0 b)
Step-Stands online (Step.overstays response hostname uuid b e) h = absurd (h.0 b)
Step-Stands online (Step.expires e) h = h
Step-Stands online (Step.cancels e) h = h
Step-Stands {s} online (Step.picks r c e) h =
    (h.0, ground (arith, next_broker_parts s.client c r e, h.1))
Step-Stands online (Step.restarts response hostname uuid e) h = h
Step-Stands {s} online (Step.decides d) h = ground (arith, h.0, h.1)

Steps-Stands : {s t : System} (online : Bool) → Steps s t → Stands online s → Stands online t
Steps-Stands online Steps.none_yet h = h
Steps-Stands online (Steps.then_step r st) h = Step-Stands online st (Steps-Stands online r h)

-- While the goroutine of a reset is in its select, no call waits on the channel, and the broker `id`
-- alone is listed as online: a state can follow after which the client is offline in every state.
-- There the timer expires before the broker disconnects, and that disconnect waits on the channel
-- with the lock held.
pub reset_deadlock :
    (s : System) (id : Bytes)
    → s.blocked ≡ 0
    → s.goroutine ≡ Goroutine.selecting
    → s.client.reset_process ≡ true
    → without id s.client.online_brokers ≡ []
    → (t : System) × Steps s t × ((u : System) → Steps t u → u.client.online ≡ false)
unfolding decide_signal delete
reset_deadlock s id free in_select resetting last =
    let expired = record s { goroutine = Goroutine.restarting } in
    let gone = record expired { client = delete s.client id; deciding = s.deciding + 1 } in
    let stuck : Stands false (decide_signal gone) = ground (arith, resetting, last) in
    (
      decide_signal gone,
      Steps.then_step
          (Steps.then_step (Steps.then_step Steps.none_yet (Step.expires in_select))
            (Step.deletes id free))
          (Step.decides (omega arith)),
      λ u r. (Steps-Stands false r stuck).1,
    )

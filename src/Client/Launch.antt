-- ===== src/Client/Launch.antt =====
-- client/client.go: the loop of Start over the brokers of a response, in steps, while the brokers that
-- it has started already call back. A broker is put into the store, and then started; the flags are
-- cleared after the loop, by `finished`. What the brokers of a former Start do is left out. The
-- goroutine of a reset that is asked for in the loop waits: a run ends where its time is up or a
-- `disconnect` signals it.
pub mod Finish
pub mod Atomic
pub mod Found
pub mod Doubled
mod Examples
use glider_client_go.Common.{
  ℕ, ◌+◌, ◌≡◌, Bool, true, false, List, [], ◌∷◌, Option, none, some, Bytes, str_eq, ◌||◌, Result,
  if◌then◌else◌,
}
use glider_client_go.Broker.Info.{Broker}
use glider_client_go.Client.{
  Client, ClientError, add_brokers, connect, delete, reset, must_signal, next_broker,
}

pub record Launch : Type 0 where
  pub client : Client
  -- the brokers of the response that the loop has not come to
  pub rest : List Broker
  -- the one that is set and not started
  pub placed : Option Bytes
  pub started : List Bytes
  -- the goroutines that calls of `reset` have started
  pub resets : ℕ
  -- calls of `disconnect` between `delete` and the guard
  pub deciding : ℕ
  -- the lock of the client is held: by `owerstaying`, within which Start runs, or for reading by a
  -- `disconnect` that stands at `stopResetProcess <-`
  pub blocked : Bool

-- Where the loop begins.
unfoldable pub begun : Client → List Broker → Bytes → Bytes → Launch
begun c response hostname uuid = record {
  client = record c { pid = if str_eq hostname [] then uuid else hostname };
  rest = response;
  placed = none;
  started = [];
  resets = 0;
  deciding = 0;
  blocked = c.overstay_process;
}

-- The round of the loop for one broker, up to `go bk.Start()`.
abbrev pub place : Launch → Broker → List Broker → Launch
place s bk rest = record s {
  client = record s.client { brokers = add_brokers s.client.certs (bk ∷ []) s.client.brokers };
  rest = rest;
  placed = some bk.id;
}

-- The flags, after the loop.
unfoldable pub finished : Client → Client
finished c = record c { overstay_process = false; reset_process = false }

-- One of these IDs.
unfoldable pub among : Bytes → List Bytes → Bool
among id [] = false
among id (j ∷ ids) = str_eq j id || among id ids

pub data Step (s : Launch) : Launch → Type 0 where
  sets :
      (bk : Broker) (rest : List Broker)
      → s.placed ≡ none
      → s.rest ≡ bk ∷ rest
      → Step s (place s bk rest)
  starts :
      (id : Bytes)
      → s.placed ≡ some id
      → Step s (record s { placed = none; started = id ∷ s.started })
  -- ConnectFunc, DisconnectFunc and ResetFunc of a broker that is started. Each takes the lock of the
  -- client. A `disconnect` looks at the flags in a second critical section, under the read lock: it
  -- returns, or it has to signal a reset: if Start runs within that reset, nobody receives, and it
  -- keeps the read lock.
  connects :
      (id : Bytes)
      → among id s.started ≡ true
      → s.blocked ≡ false
      → Step s (record s { client = connect s.client id })
  deletes :
      (id : Bytes)
      → among id s.started ≡ true
      → s.blocked ≡ false
      → Step s (record s { client = delete s.client id; deciding = s.deciding + 1 })
  returns :
      (n : ℕ)
      → s.deciding ≡ n + 1
      → must_signal s.client ≡ false
      → Step s (record s { deciding = n })
  blocks :
      (n : ℕ)
      → s.deciding ≡ n + 1
      → must_signal s.client ≡ true
      → s.resets ≡ 0
      → Step s (record s { deciding = n; blocked = true })
  asks_reset :
      (id : Bytes)
      → among id s.started ≡ true
      → s.blocked ≡ false
      → Step s (record s {
        client = (reset s.client).0;
        resets = s.resets + (if (reset s.client).1 then 1 else 0);
      })
  -- `nextBroker`, from `send`, under the read lock.
  picks :
      (r : Result ClientError Broker) (c : Client)
      → s.client.overstay_process ≡ false
      → next_broker s.client ≡ some (r, c)
      → Step s (record s { client = c })

pub data Steps (s : Launch) : Launch → Type 0 where
  none_yet : Steps s s
  then_step : {t u : Launch} → Steps s t → Step t u → Steps s u

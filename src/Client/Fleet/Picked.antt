-- ===== src/Client/Fleet/Picked.antt =====
-- Which brokers `nextBroker` of client/client.go answers, while the brokers come and go.
use glider_client_go.Common.{◌≡◌, ◌⊎◌, inl, inr, Bytes, ℕ, some, length, All-get_elem?, ok, err}
use glider_client_go.Common.{[], none, true, subst, refl, arith, Option-cases}
use glider_client_go.Proto.{Message}
use glider_client_go.Broker.Info.{Broker}
use glider_client_go.Broker.Connection
use glider_client_go.Broker.Connection.{Connection, idle, on_stream}
use glider_client_go.Broker.Connection.Safety.{Steps-IsMatched}
use glider_client_go.Broker.Lifecycle
use glider_client_go.Broker.Lifecycle.{Lifecycle, unused}
use glider_client_go.Broker.Lifecycle.Simulation.{lifecycle_simulates}
use glider_client_go.Broker.Store.Laws.{IsKeyed}
use glider_client_go.Client.{next_broker, not_connected}
use glider_client_go.Client.RoundRobin.{picked}
use glider_client_go.Client.Handshake.Invariant.{IsOffline, next_broker_bounds}
use glider_client_go.Client.Fleet.{Fleet, Steps}
use glider_client_go.Client.Fleet.Parts.{fleet_simulates}
use glider_client_go.Client.Fleet.Listed.{IsReported, IsLeaving}
use glider_client_go.Client.Fleet.Invariant.{listed_reported}

module _ (names : ℕ → Bytes) where
  -- From a client with no broker online, whose store has each broker under its ID, and in every
  -- order of what the client and its brokers do: `nextBroker` either answers a broker such that one
  -- of its ID is connected, or a call of `disconnect` for this ID waits for the mutex; or the list
  -- is empty, and it answers that the client is not connected.
  next_broker-IsReported :
      {s t : Fleet}
      → Steps names s t
      → IsOffline s.system
      → IsKeyed s.system.client.brokers
      → ((bk : Broker) × (next_broker t.system.client ≡ some (ok bk, picked t.system.client))
          × IsReported names t.lives t.calls bk.id)
        ⊎ ((length t.system.client.online_brokers ≡ 0)
            × (next_broker t.system.client ≡ some (err not_connected, t.system.client)))
  next_broker-IsReported {s} {t} g o keyed =
      elim (next_broker_bounds o (fleet_simulates names g).0) [
        | inl empty ↦ inr empty
        | inr (i, bk, _, found, answer, _) ↦ inl (
          bk,
          answer,
          All-get_elem? (λ b. IsReported names t.lives t.calls b.id) t.system.client.online_brokers
              i bk (listed_reported names g o.0 keyed) found,
        )
      ]

  -- A connection that is ready takes a message.
  takes_message :
      (c : Connection) (msg : Message)
      → Connection.Steps idle c
      → c.connected ≡ true
      → (i : ℕ) × (Connection.send c (some msg) ≡ on_stream i msg)
  unfolding Connection.send
  takes_message c msg r up = elim (Option-cases c.stream) [
    | inl gone ↦ absurd (ground (arith, gone, up, Steps-IsMatched r refl))
    | inr (i, there) ↦ (i, ground (arith, there, up))
  ]

  -- From a client with no broker online, whose store has each broker under its ID, and brokers that
  -- are not started yet, in every order of what they do: whenever no call of `disconnect` or `reset`
  -- waits for the mutex, either the online list is empty, and `nextBroker` answers that the client is
  -- not connected; or it answers a broker, and `Send` hands each message to the stream of a connection
  -- with the ID of this broker.
  pub settled_send :
      {s t : Fleet} (msg : Message)
      → Steps names s t
      → IsOffline s.system
      → IsKeyed s.system.client.brokers
      → ((n : ℕ) → s.lives n ≡ unused)
      → t.calls ≡ []
      → ((bk : Broker) × (next_broker t.system.client ≡ some (ok bk, picked t.system.client))
          × (n : ℕ) × (names n ≡ bk.id)
          × (i : ℕ) × (Connection.send (t.lives n).conn (some msg) ≡ on_stream i msg))
        ⊎ ((length t.system.client.online_brokers ≡ 0)
            × (next_broker t.system.client ≡ some (err not_connected, t.system.client)))
  settled_send {s} {t} msg g o keyed new calm = elim (next_broker-IsReported g o keyed) [
    | inr empty ↦ inr empty
    | inl (bk, answer, inr leaving) ↦ absurd (subst (IsLeaving bk.id) calm leaving)
    | inl (bk, answer, inl (n, named, up)) ↦
        let lived : Lifecycle.Steps unused (t.lives n) =
          subst (λ (l : Lifecycle). Lifecycle.Steps l (t.lives n)) (new n)
            ((fleet_simulates names g).1 n) in
        let (i, taken) = takes_message (t.lives n).conn msg (lifecycle_simulates none lived).0 up in
        inl (bk, answer, n, named, i, taken)
  ]

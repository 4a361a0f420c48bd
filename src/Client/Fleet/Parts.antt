-- ===== src/Client/Fleet/Parts.antt =====
-- What the client and each broker do in the fleet (client/client.go, broker/broker.go).
use glider_client_go.Common.{ℕ, inl, inr, subst, Bytes, ◌==◌, ==_iff, Bool-cases}
use glider_client_go.Broker.Lifecycle
use glider_client_go.Broker.Lifecycle.{Lifecycle}
use glider_client_go.Client.Handshake
use glider_client_go.Client.Handshake.{System}
use glider_client_go.Client.Fleet.{
  Fleet, set_life, Step, Steps, works, readies, ends, asks, leaves, begins_reset, manages, none_yet,
  then_step,
}

-- A step of one broker, or of none.
set_life-Steps :
    (lives : ℕ → Lifecycle) (n m : ℕ) {k l : Lifecycle}
    → Lifecycle.Step (lives n) l
    → Lifecycle.Steps k (lives m)
    → Lifecycle.Steps k (set_life lives n l m)
set_life-Steps lives n m {k} {l} st g = elim (Bool-cases (m == n)) [
  | inr other ↦ rw other g
  | inl same ↦ rw same (
      Lifecycle.Steps.then_step
        (subst (λ (i : ℕ). Lifecycle.Steps k (lives i)) ((==_iff m n).0 same) g) st)
]

module _ (names : ℕ → Bytes) where
  Step-life :
      {s t : Fleet} (m : ℕ) {k : Lifecycle}
      → Step names s t
      → Lifecycle.Steps k (s.lives m)
      → Lifecycle.Steps k (t.lives m)
  Step-life {s} m (works n st e) g = set_life-Steps s.lives n m st g
  Step-life {s} m (readies n st e b) g = set_life-Steps s.lives n m st g
  Step-life {s} m (ends n st e) g = set_life-Steps s.lives n m st g
  Step-life {s} m (asks n st e) g = set_life-Steps s.lives n m st g
  Step-life m (leaves front id back e b) g = g
  Step-life m (begins_reset front back e b) g = g
  Step-life m (manages st own) g = g

  Step-system :
      {s t : Fleet} {k : System}
      → Step names s t
      → Handshake.Steps k s.system
      → Handshake.Steps k t.system
  Step-system (works n st e) g = g
  Step-system (readies n st e b) g =
      Handshake.Steps.then_step g (Handshake.Step.connects (names n) b)
  Step-system (ends n st e) g = g
  Step-system (asks n st e) g = g
  Step-system (leaves front id back e b) g =
      Handshake.Steps.then_step g (Handshake.Step.deletes id b)
  Step-system (begins_reset front back e b) g =
      Handshake.Steps.then_step g (Handshake.Step.resets b)
  Step-system (manages st own) g = Handshake.Steps.then_step g st

  -- Together, the client makes only the steps of Client.Handshake, and each broker only those of
  -- Broker.Lifecycle.
  pub fleet_simulates :
      {s t : Fleet}
      → Steps names s t
      → Handshake.Steps s.system t.system × ((n : ℕ) → Lifecycle.Steps (s.lives n) (t.lives n))
  fleet_simulates none_yet = (Handshake.Steps.none_yet, λ n. Lifecycle.Steps.none_yet)
  fleet_simulates (then_step g st) =
      let (client, brokers) = fleet_simulates g in
      (Step-system st client, λ n. Step-life n st (brokers n))

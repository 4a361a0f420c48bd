-- ===== src/Client/Fleet/Return.antt =====
-- A broker that comes back after its stream has failed, and the online list: the end of the former
-- Start and the "_.ready" of the next are told in either order (broker/broker.go, client/client.go).
use glider_client_go.Common.{
  ℕ, ◌+◌, ◌≡◌, refl, sym, subst, ap, true, false, Bytes, [], ◌∷◌, some, lit,
}
use glider_client_go.Proto.{Message}
use glider_client_go.Broker.Info.{Broker}
use glider_client_go.Broker.Store
use glider_client_go.Broker.Connection.{ready}
use glider_client_go.Broker.Lifecycle.{Lifecycle}
use glider_client_go.Broker.Lifecycle.Notices.{Notice, silent, connects, disconnects}
use glider_client_go.Broker.Lifecycle.Recovery.{
  Tells, IsSteady, failed, again, ended, opened, live, fails_silent, starts_silent,
  ends_disconnects, opens_silent, receives_connects,
}
use glider_client_go.Client.{Client, set, delete, connect, disconnect}
use glider_client_go.Client.Online.{disconnect-set}
use glider_client_go.Client.Fleet.{
  disconnecting, Fleet, set_life, connect_call, disconnect_call, Step, Steps, works, readies, ends,
  leaves, none_yet, then_step,
}
use glider_client_go.Client.Fleet.Invariant.{set_life_self}

-- The broker `n` is in the state `l`.
abbrev put_life : Fleet → ℕ → Lifecycle → Fleet
put_life s n l = record s { lives = set_life s.lives n l }

-- It has told the client that it ended.
abbrev put_ended : Fleet → ℕ → Bytes → Lifecycle → Fleet
put_ended s n id l = record (put_life s n l) { calls = disconnecting id ∷ s.calls }

-- The client has connected it.
abbrev put_ready : Fleet → ℕ → Bytes → Lifecycle → Fleet
put_ready s n id l = record (put_life s n l) { system = connect_call id s.system }

module _ (names : ℕ → Bytes) (n : ℕ) where
  at_life :
      (s : Fleet) (k l : Lifecycle) (c : Notice)
      → s.lives n ≡ k
      → Tells k l c
      → Tells (s.lives n) l c
  at_life s k l c e t = subst (λ (j : Lifecycle). Tells j l c) (sym e) t

  works_on :
      (s : Fleet) (k l : Lifecycle)
      → s.lives n ≡ k
      → Tells k l silent
      → Step names s (put_life s n l)
  works_on s k l e t = let (st, q) = at_life s k l silent e t in works n st q

  ends_on :
      (s : Fleet) (k l : Lifecycle)
      → s.lives n ≡ k
      → Tells k l disconnects
      → Step names s (put_ended s n (names n) l)
  ends_on s k l e t = let (st, q) = at_life s k l disconnects e t in ends n st q

  readies_on :
      (s : Fleet) (k l : Lifecycle)
      → s.lives n ≡ k
      → Tells k l connects
      → s.system.blocked ≡ 0
      → Step names s (put_ready s n (names n) l)
  readies_on s k l e t b = let (st, q) = at_life s k l connects e t in readies n st q b

  -- The stream fails, the broker starts again, and the former `Start` ends.
  abbrev gone : Fleet → ℕ → Fleet
  gone s i =
      let l = s.lives n in
      put_ended (put_life (put_life s n (failed i l)) n (again i l)) n (names n) (ended i l)

  gone_steps : (s : Fleet) (i : ℕ) → IsSteady i (s.lives n) → Steps names s (gone s i)
  gone_steps s i h =
      let l = s.lives n in
      let s₁ = put_life s n (failed i l) in
      let s₂ = put_life s₁ n (again i l) in
      then_step
        (then_step (then_step none_yet (works_on s l (failed i l) refl (fails_silent i l h)))
          (works_on s₁ (failed i l) (again i l) (set_life_self s.lives n _) (starts_silent i l h)))
        (ends_on s₂ (again i l) (ended i l) (set_life_self s₁.lives n _) (ends_disconnects i l h))

  -- The next stream is open, and ready.
  abbrev back_up : Fleet → ℕ → Lifecycle → Fleet
  back_up s i l = put_ready (put_life s n (opened i l)) n (names n) (live i l)

  gone_life : (s : Fleet) (i : ℕ) → (gone s i).lives n ≡ ended i (s.lives n)
  gone_life s i =
      let l = s.lives n in
      set_life_self (put_life (put_life s n (failed i l)) n (again i l)).lives n (ended i l)

  back_up_life : (s : Fleet) (i : ℕ) (l : Lifecycle) → (back_up s i l).lives n ≡ live i l
  back_up_life s i l = set_life_self (put_life s n (opened i l)).lives n (live i l)

  back_up_steps :
      (s t : Fleet) (i : ℕ) (l : Lifecycle) (msg : Message)
      → Steps names s t
      → IsSteady i l
      → t.lives n ≡ ended i l
      → t.system.blocked ≡ 0
      → msg.name ≡ lit "_.ready"
      → Steps names s (back_up t i l)
  back_up_steps s t i l msg g h e b named =
      let t₁ = put_life t n (opened i l) in
      then_step (then_step g (works_on t (ended i l) (opened i l) e (opens_silent i l h))) (
        readies_on t₁ (opened i l) (live i l) (set_life_self t.lives n _)
          (receives_connects i l h msg named) b)

  connect-found :
      (c : Client) (bk : Broker)
      → Store.get c.brokers (names n) ≡ some bk
      → connect c (names n) ≡ set c bk
  unfolding connect
  connect-found c bk e = rw (e, connect) refl

  delete-set :
      (c : Client) (bk : Broker)
      → ((delete (set c bk) bk.id).online ≡ false) × ((delete (set c bk) bk.id).online_brokers ≡ [])
  unfolding disconnect
  delete-set c bk = disconnect-set c bk

  -- What the order needs: the broker is steady, it is in the store under its ID, the mutex of the
  -- client is free, and the new stream gets a "_.ready".
  pub record CanReturn (s : Fleet) (i : ℕ) (bk : Broker) (msg : Message) : Type 0 where
    pub steady : IsSteady i (s.lives n)
    pub stored : Store.get s.system.client.brokers (names n) ≡ some bk
    pub keyed : bk.id ≡ names n
    pub free : s.system.blocked ≡ 0
    pub named : msg.name ≡ lit "_.ready"

  -- Under the same conditions, the next stream may also be ready before the client handles the end
  -- of the former `Start`: after that `disconnect` the client is offline and its list empty, though the
  -- broker is connected on the next stream and no further call waits that did not before.
  pub late_disconnect :
      (s : Fleet) (i : ℕ) (bk : Broker) (msg : Message)
      → CanReturn s i bk msg
      → (t : Fleet) × Steps names s t
        × ((t.lives n).conn.connected ≡ true)
        × ((t.lives n).conn.stream ≡ some (i + 1))
        × (t.system.client.online ≡ false)
        × (t.system.client.online_brokers ≡ [])
        × (t.calls ≡ s.calls)
  unfolding ready
  late_disconnect s i bk msg r =
      let s₁ = gone s i in
      let s₂ = back_up s₁ i (s.lives n) in
      let g =
        back_up_steps s s₁ i (s.lives n) msg (gone_steps s i r.steady) r.steady (gone_life s i)
          r.free r.named in
      let t = record s₂ { system = disconnect_call (names n) s₂.system; calls = s.calls } in
      let same : t.lives n ≡ live i (s.lives n) = back_up_life s₁ i (s.lives n) in
      let c = s.system.client in
      let found = connect-found c bk r.stored in
      let offline : ((delete (connect c (names n)) (names n)).online ≡ false)
          × ((delete (connect c (names n)) (names n)).online_brokers ≡ []) =
        rw (found, ← r.keyed) (delete-set c bk) in
      (
        t,
        then_step g (leaves [] (names n) s.calls refl r.free),
        ap (λ (l : Lifecycle). l.conn.connected) same,
        ap (λ (l : Lifecycle). l.conn.stream) same,
        offline.0,
        offline.1,
        refl,
      )

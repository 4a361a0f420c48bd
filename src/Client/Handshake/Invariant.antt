-- ===== src/Client/Handshake/Invariant.antt =====
-- What holds of the client (client/client.go) in every order of its calls.
use glider_client_go.Common.Int.{pos}
use native.Mathlib.Decide.{dec_lt}
use native.Mathlib.Nat.{mod-lt}
use glider_client_go.Common.{
  ℕ, ◌%◌, ◌^◌, ◌<◌, ◌≡◌, ◌⊎◌, inl, inr, refl, sym, subst, false, [], some, arith, Bytes, length,
  get_elem?, Option-cases, All, ok, err,
}
use glider_client_go.Broker.Info.{Broker}
use glider_client_go.Broker.Store
use glider_client_go.Client.{
  Client, set, delete, connect, reset, begin_owerstaying, start, next_broker, not_connected,
}
use glider_client_go.Client.Online.{
  IsConsistent, set-IsConsistent, delete-IsConsistent, set-All, All-without,
}
use glider_client_go.Client.RoundRobin.{
  picked, next_broker_parts, next_broker_pick, next_broker_offline,
}
use glider_client_go.Client.Handshake.{System, call_reset, decide_signal, done_brokers, Step, Steps}

-- Every entry of the online list is one broker.
abbrev pub IsUniform : Client → Type 0
IsUniform c = (bk : Broker) × All (λ b. b ≡ bk) c.online_brokers

-- The list, its flag and the counter fit, and the list is uniform.
pub record IsSound (c : Client) : Type 0 where
  pub consistent : IsConsistent c
  pub uniform : IsUniform c

set-IsSound : (c : Client) (bk : Broker) → IsSound (set c bk)
set-IsSound c bk = record { consistent = set-IsConsistent c bk; uniform = (bk, set-All c bk) }

delete-IsSound : (c : Client) (id : Bytes) → IsSound c → IsSound (delete c id)
unfolding delete
delete-IsSound c id h = record {
  consistent = delete-IsConsistent c id;
  uniform = (h.uniform.0, All-without (λ b. b ≡ h.uniform.0) id c.online_brokers h.uniform.1);
}

connect-IsSound : (c : Client) (id : Bytes) → IsSound c → IsSound (connect c id)
unfolding connect
connect-IsSound c id h = elim (Option-cases (Store.get c.brokers id)) [
  | inl n ↦ rw (n, connect) h
  | inr (bk, n) ↦ rw (n, connect) (set-IsSound c bk)
]

-- A change of the other fields.
kept :
    (c d : Client)
    → IsSound c
    → d.online ≡ c.online
    → d.online_brokers ≡ c.online_brokers
    → d.current_send < 2 ^ 64
    → IsSound d
kept c d h o l n = record {
  consistent = record { flag = rw (o, l) h.consistent.flag; counter = n };
  uniform = rw l h.uniform;
}

picked-IsSound : (c d : Client) → (d ≡ c) ⊎ (d ≡ picked c) → IsSound c → IsSound d
picked-IsSound c d (inl e) h = rw e h
picked-IsSound c d (inr e) h = rw e (kept c (picked c) h refl refl (omega arith))

decide_signal-client : (s : System) → (decide_signal s).client ≡ s.client
unfolding decide_signal
decide_signal-client s = ground arith

Step-IsSound : {s t : System} → Step s t → IsSound s.client → IsSound t.client
unfolding call_reset reset decide_signal start begin_owerstaying done_brokers
Step-IsSound {s} (Step.resets b) h =
    kept s.client _ h (ground arith) (ground arith) (ground (arith, h.consistent.counter))
Step-IsSound {s} (Step.deletes id b) h = delete-IsSound s.client id h
Step-IsSound {s} (Step.decides d) h = subst IsSound (sym (decide_signal-client s)) h
Step-IsSound {s} (Step.connects id b) h = connect-IsSound s.client id h
Step-IsSound {s} (Step.expires e) h = h
Step-IsSound {s} (Step.cancels e) h = kept s.client _ h refl refl h.consistent.counter
Step-IsSound {s} (Step.restarts response hostname uuid e) h =
    kept s.client _ h refl refl h.consistent.counter
Step-IsSound {s} (Step.overstays response hostname uuid b e) h =
    kept s.client _ h (ground arith) (ground arith) (ground (arith, h.consistent.counter))
Step-IsSound {s} (Step.picks r c e) h =
    picked-IsSound s.client c (next_broker_parts s.client c r e) h

Steps-IsSound : {s t : System} → Steps s t → IsSound s.client → IsSound t.client
Steps-IsSound Steps.none_yet h = h
Steps-IsSound (Steps.then_step r st) h = Step-IsSound st (Steps-IsSound r h)

abbrev unnamed : Broker
unnamed = record { id = []; host = []; port = pos 0; insecure = false; cert_path = [] }

-- Before the first `Start`, or whenever no broker is online.
abbrev pub IsOffline : System → Type 0
IsOffline s =
    (s.client.online_brokers ≡ []) × (s.client.online ≡ false) × (s.client.current_send < 2 ^ 64)

offline-IsSound : (s : System) → IsOffline s → IsSound s.client
offline-IsSound s (l, o, n) = record {
  consistent = record { flag = rw (l, o) refl; counter = n };
  uniform = (unnamed, rw l tt);
}

-- From a client with no broker online, in every order of connections, disconnections, resets,
-- restarts and sends: the list of online brokers never holds two different brokers.
pub online_uniform :
    {s t : System}
    → IsOffline s
    → Steps s t
    → (bk : Broker) × All (λ b. b ≡ bk) t.client.online_brokers
online_uniform {s} o r = (Steps-IsSound r (offline-IsSound s o)).uniform

-- In all these states too, `nextBroker` stays within the bounds of the list: it answers a broker at
-- an index below the length, or that the client is not connected if the list is empty, and its
-- counter stays a uint64.
pub next_broker_bounds :
    {s t : System}
    → IsOffline s
    → Steps s t
    → ((length t.client.online_brokers ≡ 0)
        × (next_broker t.client ≡ some (err not_connected, t.client)))
      ⊎ ((i : ℕ) × (bk : Broker) × (i < length t.client.online_brokers)
          × (get_elem? t.client.online_brokers i ≡ some bk)
          × (next_broker t.client ≡ some (ok bk, picked t.client))
          × ((picked t.client).current_send < 2 ^ 64))
next_broker_bounds {s} {t} o r =
    let v = (Steps-IsSound r (offline-IsSound s o)).consistent in
    elim (dec_lt 0 (length t.client.online_brokers)) [
      | no h ↦ inl (omega arith, next_broker_offline t.client v (omega arith))
      | yes h ↦
          let (b, found, step) = next_broker_pick t.client v h in
          inr (
            t.client.current_send % length t.client.online_brokers,
            b,
            mod-lt t.client.current_send h,
            found,
            step,
            omega arith,
          )
    ]

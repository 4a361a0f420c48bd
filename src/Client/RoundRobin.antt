-- ===== src/Client/RoundRobin.antt =====
-- The choice of the next broker (client/client.go, nextBroker).
use native.Mathlib.Nat.{mod-lt, mod-eq_of_lt}
use glider_client_go.Common.{
  Result, ◌⊎◌, inl, inr, Option-cases, append_assoc, sym, ℕ, zero, suc, ◌+◌, ◌-◌, ◌%◌, ◌<◌, ◌^◌,
  ◌≡◌, refl, List, [], ◌∷◌, ◌++◌, none, some, arith, length, length-append, get_elem?,
  get_elem?-total, ok, err, ap, ◌∙◌,
}
use glider_client_go.Broker.Info.{Broker}
use glider_client_go.Client.{ClientError, Client, not_connected, next_index, next_broker}
use glider_client_go.Client.Online.{IsConsistent}

-- The wrapped addition and subtraction cancel, at the largest counter too.
next_index_lem :
    (current n : ℕ)
    → current < 2 ^ 64
    → next_index current n ≡ (current % n, (current + 1) % 2 ^ 64)
unfolding next_index
next_index_lem current n h =
    let e : ((current + 1) % 2 ^ 64 + 2 ^ 64 - 1) % 2 ^ 64 ≡ current = omega arith in rw e refl

-- The state after a pick.
abbrev pub picked : Client → Client
picked c = record c { current_send = (c.current_send + 1) % 2 ^ 64 }

-- Picking a broker moves the counter and nothing else.
pub next_broker_parts :
    (c d : Client) (r : Result ClientError Broker)
    → next_broker c ≡ some (r, d)
    → (d ≡ c) ⊎ (d ≡ picked c)
unfolding next_broker next_index
next_broker_parts c d r e =
    elim (Option-cases
      (get_elem? c.online_brokers (next_index c.current_send (length c.online_brokers)).0)) [
        | inl n ↦ ground (arith, n, e)
        | inr (b, n) ↦ ground (arith, n, e)
      ]

-- A consistent client with a broker online picks the broker at the counter modulo their number.
pub next_broker_pick :
    (c : Client)
    → IsConsistent c
    → 0 < length c.online_brokers
    → (bk : Broker) × (get_elem? c.online_brokers (c.current_send % length c.online_brokers)
        ≡ some bk)
      × (next_broker c ≡ some (ok bk, picked c))
unfolding next_broker
next_broker_pick c v h =
    let n = length c.online_brokers in
    let (bk, e) = get_elem?-total c.online_brokers (c.current_send % n) (mod-lt c.current_send h) in
    (bk, e, ground (arith, e, v.flag, next_index_lem c.current_send n v.counter))

-- It never panics: one offline reports that it is not connected.
pub next_broker_offline :
    (c : Client)
    → IsConsistent c
    → length c.online_brokers ≡ 0
    → next_broker c ≡ some (err not_connected, c)
unfolding next_broker
next_broker_offline c v h = ground (arith, v.flag)

-- The brokers that `k` calls in a row pick.
unfoldable pub picks : ℕ → Client → List Broker
picks zero c = []
picks (suc k) c = elim (next_broker c) [
  | none ↦ []
  | some (err e, c') ↦ []
  | some (ok bk, c') ↦ bk ∷ picks k c'
]

get_elem?-middle :
    (front rest : List Broker) (x : Broker)
    → get_elem? (front ++ (x ∷ rest)) (length front) ≡ some x
get_elem?-middle [] rest x = refl
get_elem?-middle (y ∷ front) rest x = get_elem?-middle front rest x

picks_rest :
    (rest front : List Broker) (c : Client)
    → IsConsistent c
    → c.online_brokers ≡ front ++ rest
    → c.current_send ≡ length front
    → length front + length rest < 2 ^ 64
    → picks (length rest) c ≡ rest
unfolding picks
picks_rest [] front c v e i h = refl
picks_rest (x ∷ rest) front c v e i h =
    let n : length c.online_brokers ≡ length front + suc (length rest) =
      rw e (length-append front (x ∷ rest)) in
    let (bk, found, step) = next_broker_pick c v (omega arith) in
    let below : c.current_send < length c.online_brokers = omega arith in
    let index : c.current_send % length c.online_brokers ≡ length front = mod-eq_of_lt below ∙ i in
    let here : bk ≡ x = cc (found, index, e, get_elem?-middle front rest x) in
    rw (step, picks, here)
      (ap (λ (l : List Broker). x ∷ l)
        (picks_rest rest (front ++ x ∷ []) (picked c)
          (record { flag = v.flag; counter = omega arith })
          (e ∙ sym (append_assoc front (x ∷ []) rest)) (omega (arith, length-append front (x ∷ [])))
          (omega (arith, length-append front (x ∷ [])))))

-- A full turn of a consistent client from a reset counter picks each broker of the list once, in
-- its order, if the list has fewer than 2 ^ 64 entries.
pub picks_cycle :
    (c : Client)
    → IsConsistent c
    → c.current_send ≡ 0
    → length c.online_brokers < 2 ^ 64
    → picks (length c.online_brokers) c ≡ c.online_brokers
picks_cycle c v i h = picks_rest c.online_brokers [] c v refl i (omega arith)

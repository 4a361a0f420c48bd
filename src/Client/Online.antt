-- ===== src/Client/Online.antt =====
-- The list of online brokers (client/client.go: set, delete, connect, disconnect).
use glider_client_go.Common.{
  ℕ, ◌+◌, ◌<◌, ◌^◌, ◌≡◌, inl, inr, refl, true, false, List, [], ◌∷◌, arith, length, length-append,
  count-append, count, Bytes, str_eq, str_eq_iff, str_eq_refl, ltb, if◌then◌else◌, All, All-append,
  Bool-cases,
}
use glider_client_go.Broker.Info.{Broker}
use glider_client_go.Client.{Client, set_loop, set, without, delete, disconnect}

-- `online` says whether a broker is listed, and the counter is a uint64.
pub record IsConsistent (c : Client) : Type 0 where
  pub flag : c.online ≡ ltb 0 (length c.online_brokers)
  pub counter : c.current_send < 2 ^ 64

pub set-IsConsistent : (c : Client) (bk : Broker) → IsConsistent (set c bk)
unfolding set
set-IsConsistent c bk = record {
  flag = ground (arith, length-append (set_loop bk c.online_brokers) (bk ∷ []));
  counter = omega arith;
}

pub delete-IsConsistent : (c : Client) (id : Bytes) → IsConsistent (delete c id)
unfolding delete
delete-IsConsistent c id = record { flag = refl; counter = omega arith }

-- The entries of one ID.
abbrev pub entries : Bytes → List Broker → ℕ
entries id = count (λ b. str_eq b.id id)

entries-without :
    (id j : Bytes) (bs : List Broker)
    → entries j (without id bs) ≡ (if str_eq id j then 0 else entries j bs)
entries-without id j [] = ground arith
entries-without id j (b ∷ bs) =
    ground (arith, str_eq_iff id j, str_eq_iff b.id id, str_eq_iff b.id j, entries-without id j bs)

-- After `delete` no entry of that ID is left, and all others are.
entries-delete :
    (c : Client) (id j : Bytes)
    → entries j (delete c id).online_brokers
      ≡ (if str_eq id j then 0 else entries j c.online_brokers)
unfolding delete
entries-delete c id j = entries-without id j c.online_brokers

set_loop-All : (bk : Broker) (bs : List Broker) → All (λ b. b ≡ bk) (set_loop bk bs)
unfolding set_loop
set_loop-All bk [] = tt
set_loop-All bk (b ∷ bs) = elim (Bool-cases (str_eq b.id bk.id)) [
  | inl e ↦ rw e (set_loop-All bk bs)
  | inr e ↦ rw e (refl, set_loop-All bk bs)
]

-- After `set` every entry of the list is the broker that was set.
pub set-All : (c : Client) (bk : Broker) → All (λ b. b ≡ bk) (set c bk).online_brokers
unfolding set
set-All c bk =
    All-append (λ b. b ≡ bk) (set_loop bk c.online_brokers) (bk ∷ [])
      (set_loop-All bk c.online_brokers) (refl, tt)

entries-set_loop :
    (bk : Broker) (j : Bytes) (bs : List Broker)
    → entries j (set_loop bk bs) ≡ (if str_eq bk.id j then length (without bk.id bs) else 0)
unfolding set_loop
entries-set_loop bk j [] = ground arith
entries-set_loop bk j (b ∷ bs) =
    ground (arith, str_eq_iff bk.id j, str_eq_iff b.id bk.id, entries-set_loop bk j bs)

-- `set` leaves no entry of any other ID, and of its own ID one for each entry of another ID and
-- one more.
pub entries-set :
    (c : Client) (bk : Broker) (j : Bytes)
    → entries j (set c bk).online_brokers
      ≡ (if str_eq bk.id j then length (without bk.id c.online_brokers) + 1 else 0)
unfolding set
entries-set c bk j = ground (
  arith,
  count-append (λ b. str_eq b.id j) (set_loop bk c.online_brokers) (bk ∷ []),
  entries-set_loop bk j c.online_brokers,
)

without-All : (bk : Broker) (bs : List Broker) → All (λ b. b ≡ bk) bs → without bk.id bs ≡ []
without-All bk [] h = refl
without-All bk (b ∷ bs) h =
    let same : str_eq b.id bk.id ≡ true = rw (h.0) (str_eq_refl bk.id) in
    rw same (without-All bk bs h.1)

-- Once a broker has connected, its disconnect alone takes the client offline, whichever other
-- brokers were online.
pub disconnect-set :
    (c : Client) (bk : Broker)
    → ((disconnect (set c bk) bk.id).0.online ≡ false)
      × ((disconnect (set c bk) bk.id).0.online_brokers ≡ [])
unfolding disconnect delete
disconnect-set c bk = rw (without-All bk (set c bk).online_brokers (set-All c bk)) (refl, refl)

-- What holds of the list holds of what `delete` leaves.
pub All-without :
    (P : Broker → Type 0) (id : Bytes) (bs : List Broker) → All P bs → All P (without id bs)
All-without P id [] h = tt
All-without P id (b ∷ bs) h = elim (Bool-cases (str_eq b.id id)) [
  | inl e ↦ rw e (All-without P id bs h.1)
  | inr e ↦ rw e (h.0, All-without P id bs h.1)
]

-- ===== src/Client/Fleet/Listed.antt =====
-- Why a broker is on the online list (client/client.go, broker/broker.go).
use glider_client_go.Common.{
  ℕ, ◌≡◌, ◌≢◌, ◌⊎◌, inl, inr, refl, sym, ◌∙◌, subst, ap, true, Bytes, List, [], ◌∷◌, ◌++◌, arith,
  str_eq, str_eq_iff, ◌==◌, ==_iff, Bool-cases, Option-cases, All,
}
use glider_client_go.Broker.Info.{Broker}
use glider_client_go.Broker.Store
use glider_client_go.Broker.Store.Laws.{IsKeyed, get-IsKeyed}
use glider_client_go.Broker.Lifecycle.{Lifecycle}
use glider_client_go.Client.{Client, without, set, delete, connect, begin_owerstaying, start}
use glider_client_go.Client.Online.{set-All}
use glider_client_go.Client.RoundRobin.{next_broker_parts}
use glider_client_go.Client.Handshake
use glider_client_go.Client.Handshake.{System, call_reset, decide_signal, done_brokers}
use glider_client_go.Client.Fleet.{Call, disconnecting, resetting, Fleet, set_life, IsOwn}

-- A call of `disconnect` for this ID waits.
abbrev pub IsLeaving : Bytes → List Call → Type 0
IsLeaving id [] = ⊥
IsLeaving id (disconnecting j ∷ cs) = (j ≡ id) ⊎ IsLeaving id cs
IsLeaving id (resetting ∷ cs) = IsLeaving id cs

IsLeaving-other :
    (id j : Bytes) (front back : List Call)
    → j ≢ id
    → IsLeaving id (front ++ (disconnecting j ∷ back))
    → IsLeaving id (front ++ back)
IsLeaving-other id j [] back n (inl e) = absurd (n e)
IsLeaving-other id j [] back n (inr h) = h
IsLeaving-other id j (disconnecting k ∷ front) back n (inl e) = inl e
IsLeaving-other id j (disconnecting k ∷ front) back n (inr h) =
    inr (IsLeaving-other id j front back n h)
IsLeaving-other id j (resetting ∷ front) back n h = IsLeaving-other id j front back n h

pub IsLeaving-reset :
    (id : Bytes) (front back : List Call)
    → IsLeaving id (front ++ (resetting ∷ back))
    → IsLeaving id (front ++ back)
IsLeaving-reset id [] back h = h
IsLeaving-reset id (disconnecting k ∷ front) back (inl e) = inl e
IsLeaving-reset id (disconnecting k ∷ front) back (inr h) = inr (IsLeaving-reset id front back h)
IsLeaving-reset id (resetting ∷ front) back h = IsLeaving-reset id front back h

pub All-map_to :
    (P Q : Broker → Type 0) (bs : List Broker) → ((b : Broker) → P b → Q b) → All P bs → All Q bs
All-map_to P Q [] f h = tt
All-map_to P Q (b ∷ bs) f h = (f b h.0, All-map_to P Q bs f h.1)

All-without_to :
    (P Q : Broker → Type 0) (id : Bytes) (bs : List Broker)
    → ((b : Broker) → id ≢ b.id → P b → Q b)
    → All P bs
    → All Q (without id bs)
All-without_to P Q id [] f h = tt
All-without_to P Q id (b ∷ bs) f h = elim (Bool-cases (str_eq b.id id)) [
  | inl e ↦ rw e (All-without_to P Q id bs f h.1)
  | inr e ↦
      rw e (f b (λ q. cc (e, (str_eq_iff b.id id).1 (sym q))) h.0, All-without_to P Q id bs f h.1)
]

-- The client's own steps leave the list as it is.
pub own_list :
    {s t : System} (st : Handshake.Step s t)
    → IsOwn st
    → t.client.online_brokers ≡ s.client.online_brokers
unfolding decide_signal start done_brokers begin_owerstaying
own_list (Handshake.Step.resets b) h = absurd h
own_list (Handshake.Step.deletes id b) h = absurd h
own_list (Handshake.Step.connects id b) h = absurd h
own_list (Handshake.Step.decides d) h = ground arith
own_list (Handshake.Step.expires e) h = refl
own_list (Handshake.Step.cancels e) h = refl
own_list (Handshake.Step.restarts response hostname uuid e) h = refl
own_list (Handshake.Step.overstays response hostname uuid b e) h = ground arith
own_list {s} (Handshake.Step.picks r c e) h = ground (arith, next_broker_parts s.client c r e)

-- A flag that the step of one broker does not clear.
kept_flag :
    (lives : ℕ → Lifecycle) (n m : ℕ) (l : Lifecycle)
    → ((lives n).conn.connected ≡ true → l.conn.connected ≡ true)
    → (lives m).conn.connected ≡ true
    → (set_life lives n l m).conn.connected ≡ true
kept_flag lives n m l keeps h = elim (Bool-cases (m == n)) [
  | inl same ↦
      rw same (keeps (subst (λ (i : ℕ). (lives i).conn.connected ≡ true) ((==_iff m n).0 same) h))
  | inr other ↦ rw other h
]

module _ (names : ℕ → Bytes) where
  -- A broker of this ID is connected, or a call of `disconnect` for it waits.
  abbrev pub IsReported : (ℕ → Lifecycle) → List Call → Bytes → Type 0
  IsReported lives calls id =
      ((n : ℕ) × (names n ≡ id) × ((lives n).conn.connected ≡ true)) ⊎ IsLeaving id calls

  -- Every broker on the list is reported.
  abbrev pub AreReported : (ℕ → Lifecycle) → List Call → Client → Type 0
  AreReported lives calls c = All (λ b. IsReported lives calls b.id) c.online_brokers

  pub record IsTold (s : Fleet) : Type 0 where
    pub keyed : IsKeyed s.system.client.brokers
    pub listed : AreReported s.lives s.calls s.system.client

  IsReported-keeps :
      (lives : ℕ → Lifecycle) (n : ℕ) (l : Lifecycle) (calls : List Call) (id : Bytes)
      → ((lives n).conn.connected ≡ true → l.conn.connected ≡ true)
      → IsReported lives calls id
      → IsReported (set_life lives n l) calls id
  IsReported-keeps lives n l calls id keeps (inl (m, named, up)) =
      inl (m, named, kept_flag lives n m l keeps up)
  IsReported-keeps lives n l calls id keeps (inr h) = inr h

  -- The broker that goes down is about to leave.
  pub IsReported-ends :
      (lives : ℕ → Lifecycle) (n : ℕ) (l : Lifecycle) (calls : List Call) (id : Bytes)
      → IsReported lives calls id
      → IsReported (set_life lives n l) (disconnecting (names n) ∷ calls) id
  IsReported-ends lives n l calls id (inr h) = inr (inr h)
  IsReported-ends lives n l calls id (inl (m, named, up)) = elim (Bool-cases (m == n)) [
    | inl same ↦ inr (inl (sym (ap names ((==_iff m n).0 same)) ∙ named))
    | inr other ↦ inl (m, named, rw other up)
  ]

  pub AreReported-keeps :
      (lives : ℕ → Lifecycle) (n : ℕ) (l : Lifecycle) (calls : List Call) (c : Client)
      → ((lives n).conn.connected ≡ true → l.conn.connected ≡ true)
      → AreReported lives calls c
      → AreReported (set_life lives n l) calls c
  AreReported-keeps lives n l calls c keeps h =
      All-map_to _ _ c.online_brokers (λ b. IsReported-keeps lives n l calls b.id keeps) h

  pub AreReported-connect :
      (lives : ℕ → Lifecycle) (n : ℕ) (calls : List Call) (c : Client)
      → IsKeyed c.brokers
      → (lives n).conn.connected ≡ true
      → AreReported lives calls c
      → AreReported lives calls (connect c (names n))
  unfolding connect
  AreReported-connect lives n calls c keyed up h =
      elim (Option-cases (Store.get c.brokers (names n))) [
        | inl gone ↦ rw (gone, connect) h
        | inr (bk, there) ↦
            let own : (b : Broker) → b ≡ bk → IsReported lives calls b.id = λ b e. inl (
              n,
              sym (get-IsKeyed c.brokers (names n) bk keyed there)
                  ∙ sym (ap (λ (x : Broker). x.id) e),
              up,
            ) in
            rw (there, connect) (All-map_to _ _ (set c bk).online_brokers own (set-All c bk))
      ]

  pub AreReported-delete :
      (lives : ℕ → Lifecycle) (front : List Call) (id : Bytes) (back : List Call) (c : Client)
      → AreReported lives (front ++ (disconnecting id ∷ back)) c
      → AreReported lives (front ++ back) (delete c id)
  unfolding delete
  AreReported-delete lives front id back c h = All-without_to _ _ id c.online_brokers stays h
    where
      stays :
          (b : Broker)
          → id ≢ b.id
          → IsReported lives (front ++ (disconnecting id ∷ back)) b.id
          → IsReported lives (front ++ back) b.id
      stays b n (inl up) = inl up
      stays b n (inr h) = inr (IsLeaving-other b.id id front back n h)

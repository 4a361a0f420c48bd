-- ===== src/Client/Fleet/Invariant.antt =====
-- The invariant of the client and its brokers (client/client.go, broker/broker.go).
use glider_client_go.Common.{
  ℕ, ◌≡◌, inl, inr, refl, sym, ◌∙◌, subst, true, Bytes, List, [], ◌∷◌, ◌++◌, arith, ==_iff, All,
}
use glider_client_go.Broker.Info.{Broker}
use glider_client_go.Broker.Store.Laws.{IsKeyed}
use glider_client_go.Broker.Lifecycle
use glider_client_go.Broker.Lifecycle.{Lifecycle}
use glider_client_go.Broker.Lifecycle.Notices.{
  Notice, notice, silent, connects, resets, Told, notice-Told,
}
use glider_client_go.Client.{reset, delete}
use glider_client_go.Client.Handshake
use glider_client_go.Client.Handshake.{System, call_reset}
use glider_client_go.Client.Handshake.Keyed.{Step-IsKeyed}
use glider_client_go.Client.Fleet.{
  Call, resetting, Fleet, set_life, connect_call, Step, Steps, works, readies, ends, asks, leaves,
  begins_reset, manages, none_yet, then_step,
}
use glider_client_go.Client.Fleet.Listed.{
  IsLeaving-reset, IsReported, AreReported, IsReported-ends, AreReported-keeps, AreReported-connect,
  AreReported-delete, All-map_to, IsTold, own_list,
}

told :
    {s t : Lifecycle} (st : Lifecycle.Step s t) (n : Notice)
    → notice st ≡ n
    → Told n s.conn.connected t.conn.connected
told {s} {t} st n e =
    subst (λ (k : Notice). Told k s.conn.connected t.conn.connected) e (notice-Told st)

pub set_life_self : (lives : ℕ → Lifecycle) (n : ℕ) (l : Lifecycle) → set_life lives n l n ≡ l
set_life_self lives n l = rw ((==_iff n n).1 refl) refl

call_reset-list : (s : System) → (call_reset s).client.online_brokers ≡ s.client.online_brokers
unfolding call_reset reset
call_reset-list s = ground arith

module _ (names : ℕ → Bytes) where
  Step-IsTold : {s t : Fleet} → Step names s t → IsTold names s → IsTold names t
  Step-IsTold {s} (works n {l} st e) h = record {
    keyed = h.keyed;
    listed =
        AreReported-keeps names s.lives n l s.calls s.system.client (λ up. told st silent e ∙ up)
          h.listed;
  }
  Step-IsTold {s} (asks n {l} st e) h = record {
    keyed = h.keyed;
    listed =
        AreReported-keeps names s.lives n l s.calls s.system.client (λ up. told st resets e ∙ up)
          h.listed;
  }
  Step-IsTold {s} (ends n {l} st e) h = record {
    keyed = h.keyed;
    listed =
        All-map_to _ _ s.system.client.online_brokers
          (λ b. IsReported-ends names s.lives n l s.calls b.id) h.listed;
  }
  Step-IsTold {s} (readies n {l} st e b) h =
      let called : Handshake.Step s.system (connect_call (names n) s.system) =
        Handshake.Step.connects (names n) b in
      let up : l.conn.connected ≡ true = told st connects e in
      record {
        keyed = Step-IsKeyed called h.keyed;
        listed =
            AreReported-connect names (set_life s.lives n l) n s.calls s.system.client h.keyed
              (rw (set_life_self s.lives n l) up)
              (AreReported-keeps names s.lives n l s.calls s.system.client (λ _. up) h.listed);
      }
  Step-IsTold {s} (leaves front id back e b) h = record {
    keyed = unfold delete in h.keyed;
    listed =
        AreReported-delete names s.lives front id back s.system.client
          (subst (λ (cs : List Call). AreReported names s.lives cs s.system.client) e h.listed);
  }
  Step-IsTold {s} (begins_reset front back e b) h =
      let called : Handshake.Step s.system (call_reset s.system) = Handshake.Step.resets b in
      let before : AreReported names s.lives (front ++ (resetting ∷ back)) s.system.client =
        subst (λ (cs : List Call). AreReported names s.lives cs s.system.client) e h.listed in
      record {
        keyed = Step-IsKeyed called h.keyed;
        listed =
            subst
              (λ (bs : List Broker). All (λ b. IsReported names s.lives (front ++ back) b.id) bs)
              (sym (call_reset-list s.system))
              (All-map_to _ _ s.system.client.online_brokers (λ b. stays front back b.id) before);
      }
    where
      stays :
          (front back : List Call) (id : Bytes)
          → IsReported names s.lives (front ++ (resetting ∷ back)) id
          → IsReported names s.lives (front ++ back) id
      stays front back id (inl up) = inl up
      stays front back id (inr left) = inr (IsLeaving-reset id front back left)
  Step-IsTold {s} (manages {t} st own) h = record {
    keyed = Step-IsKeyed st h.keyed;
    listed =
        subst (λ (bs : List Broker). All (λ b. IsReported names s.lives s.calls b.id) bs)
          (sym (own_list st own)) h.listed;
  }

  Steps-IsTold : {s t : Fleet} → Steps names s t → IsTold names s → IsTold names t
  Steps-IsTold none_yet h = h
  Steps-IsTold (then_step g st) h = Step-IsTold st (Steps-IsTold g h)

  -- From a client with no broker online, whose store has each broker under its ID, and in every
  -- order of what the client and its brokers do: for each entry of the online list, a broker of its
  -- ID is connected, or a call of `disconnect` for this ID waits for the mutex.
  pub listed_reported :
      {s t : Fleet}
      → Steps names s t
      → s.system.client.online_brokers ≡ []
      → IsKeyed s.system.client.brokers
      → AreReported names t.lives t.calls t.system.client
  listed_reported {s} g empty keyed =
      (Steps-IsTold g (record { keyed = keyed; listed = rw empty tt })).listed

-- ===== src/Client/Locks/Calls.antt =====
-- The calls whose locks are modelled (client/client.go, broker/store.go, broker/broker.go), and that
-- the critical sections of Client.rw in them exclude each other.
use glider_client_go.Common.{
  ℕ, ◌≡◌, refl, ◌∙◌, true, false, List, [], ◌∷◌, arith, Bytes, str_eq_refl,
}
use glider_client_go.Client.Locks.{
  Lock, broker_rw, store_rw, client_rw, lock_eq, Op, unlock, Locks, Moves, connect_script,
  ready_script, cancel_script, done_script, owerstaying_script,
}
use glider_client_go.Client.Locks.Exclusion.{Moves-AreExclusive}
use glider_client_go.Client.Locks.Sections.{
  critical, IsBalanced, writes_only, IsHeld, IsWriting, Moves-IsHeld, Moves-IsWriting, one_owner,
}

-- A "_.ready", the Done of a reset, and owerstaying, which unlocks at its end; or nothing.
pub data IsCall : List Op → Type 0 where
  no_call : IsCall []
  readies : (id : Bytes) → IsCall (ready_script id [])
  cancels : (ids : List Bytes) → IsCall (done_script ids [])
  overstays : (ids : List Bytes) → IsCall (owerstaying_script ids (unlock client_rw ∷ []))

-- A lock that no Broker.Done takes.
store-cancel :
    (ids : List Bytes) (rest : List Op)
    → critical store_rw (cancel_script ids rest) ≡ critical store_rw rest
unfolding critical cancel_script lock_eq
store-cancel [] rest = refl
store-cancel (id ∷ ids) rest = store-cancel ids rest

client-cancel :
    (ids : List Bytes) (rest : List Op)
    → critical client_rw (cancel_script ids rest) ≡ critical client_rw rest
unfolding critical cancel_script lock_eq
client-cancel [] rest = refl
client-cancel (id ∷ ids) rest = client-cancel ids rest

broker-cancel :
    (j : Bytes) (ids : List Bytes) (rest : List Op)
    → critical (broker_rw j) rest ≡ false
    → critical (broker_rw j) (cancel_script ids rest) ≡ false
unfolding critical cancel_script lock_eq
broker-cancel j [] rest e = e
broker-cancel j (id ∷ ids) rest e = ground (arith, broker-cancel j ids rest e)

cancel-IsBalanced :
    (ids : List Bytes) (rest : List Op)
    → ((j : Bytes) → critical (broker_rw j) rest ≡ false)
    → IsBalanced rest
    → IsBalanced (cancel_script ids rest)
unfolding cancel_script
cancel-IsBalanced [] rest e b = b
cancel-IsBalanced (id ∷ ids) rest e b = (
  unfold critical lock_eq in rw str_eq_refl refl,
  (broker-cancel id ids rest (e id), cancel-IsBalanced ids rest e b),
)

client-writes_only :
    (ids : List Bytes) (rest : List Op)
    → writes_only client_rw (cancel_script ids rest) ≡ writes_only client_rw rest
unfolding writes_only cancel_script lock_eq
client-writes_only [] rest = refl
client-writes_only (id ∷ ids) rest = client-writes_only ids rest

IsCall-IsBalanced : (l : List Op) → IsCall l → IsBalanced l
IsCall-IsBalanced _ no_call = tt
IsCall-IsBalanced _ (readies id) =
    unfold critical ready_script connect_script lock_eq in
    (rw str_eq_refl refl, (refl, (refl, (refl, (refl, (refl, tt))))))
IsCall-IsBalanced _ (cancels ids) =
    unfold done_script in
    (
      store-cancel ids _ ∙ unfold critical lock_eq in refl,
      cancel-IsBalanced ids _ (λ j. unfold critical lock_eq in refl)
          (unfold critical in (refl, tt)),
    )
IsCall-IsBalanced _ (overstays ids) =
    unfold owerstaying_script done_script in
    (
      unfold critical lock_eq in client-cancel ids _,
      (
        store-cancel ids _ ∙ unfold critical lock_eq in refl,
        cancel-IsBalanced ids _ (λ j. unfold critical lock_eq in refl)
            (unfold critical lock_eq in (refl, (refl, tt))),
      ),
    )

-- At its beginning a call is inside of no critical section.
IsCall-outside : (l : List Op) (m : Lock) → IsCall l → critical m l ≡ false
unfolding critical lock_eq ready_script connect_script done_script owerstaying_script
IsCall-outside _ m no_call = refl
IsCall-outside _ (broker_rw j) (readies id) = ground arith
IsCall-outside _ store_rw (readies id) = refl
IsCall-outside _ client_rw (readies id) = refl
IsCall-outside _ (broker_rw j) (cancels ids) = broker-cancel j ids _ refl
IsCall-outside _ store_rw (cancels ids) = refl
IsCall-outside _ client_rw (cancels ids) = client-cancel ids _
IsCall-outside _ (broker_rw j) (overstays ids) = broker-cancel j ids _ refl
IsCall-outside _ store_rw (overstays ids) = refl
IsCall-outside _ client_rw (overstays ids) = refl

IsCall-writes_only : (l : List Op) → IsCall l → writes_only client_rw l ≡ true
IsCall-writes_only _ no_call = unfold writes_only in refl
IsCall-writes_only _ (readies id) = unfold writes_only ready_script connect_script lock_eq in refl
IsCall-writes_only _ (cancels ids) = unfold writes_only done_script in client-writes_only ids _
IsCall-writes_only _ (overstays ids) =
    unfold writes_only owerstaying_script done_script in client-writes_only ids _

-- From a state in which no mutex is held and each goroutine is at the beginning of such a call, or has
-- nothing to do, and in whatever order they go on: two goroutines that are both between the lock and
-- the unlock of Client.rw are one.
pub sections_apart :
    {s t : Locks} (i j : ℕ)
    → ((m : Lock) → s.holds m ≡ [])
    → ((k : ℕ) → IsCall (s.scripts k))
    → Moves s t
    → critical client_rw (t.scripts i) ≡ true
    → critical client_rw (t.scripts j) ≡ true
    → i ≡ j
sections_apart {s} {t} i j free calls g p q =
    let held : IsHeld t = Moves-IsHeld g (record {
      balanced = λ k. IsCall-IsBalanced (s.scripts k) (calls k);
      held = λ k m c. cc (c, IsCall-outside (s.scripts k) m (calls k));
    }) in
    let writing : IsWriting client_rw t = Moves-IsWriting client_rw g (record {
      scripts = λ k. IsCall-writes_only (s.scripts k) (calls k);
      holders = rw (free client_rw) tt;
    }) in
    one_owner i j (t.holds client_rw) (Moves-AreExclusive g (λ m. rw (free m) tt) client_rw)
      writing.holders (held.held i client_rw p) (held.held j client_rw q)

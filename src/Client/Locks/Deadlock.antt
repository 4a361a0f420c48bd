-- ===== src/Client/Locks/Deadlock.antt =====
-- Which goroutines wait for each other for ever (client/client.go, broker/broker.go, broker/store.go).
use glider_client_go.Common.{ℕ, ◌≡◌, ◌≢◌, refl, true, List, [], ◌∷◌, arith, Bytes, str_eq_refl}
use glider_client_go.Client.Locks.{
  Lock, broker_rw, store_rw, client_rw, lock_eq, Op, lock, rlock, unlock, Locks, allowed, put,
  perform, move, Moves, here, next, connect_script, ready_script, cancel_script, done_script,
  owerstaying_script,
}
use glider_client_go.Client.Locks.Circle.{writer, IsCircle, Moves-IsCircle}

move-takes :
    (s : Locks) (i : ℕ) (m : Lock) (rest : List Op)
    → s.scripts i ≡ lock m ∷ rest
    → s.holds m ≡ []
    → move i s ≡ put s i rest m (record { owner = i; writes = true } ∷ [])
unfolding move perform allowed
move-takes s i m rest e free = rw (e, move) (rw free refl)

-- Both have taken their first mutex.
both_wait-IsCircle :
    (id : Bytes) (ids : List Bytes) (after_ready after_done : List Op) (s : Locks) (i j : ℕ)
    → i ≢ j
    → s.scripts i ≡ ready_script id after_ready
    → s.scripts j ≡ done_script (id ∷ ids) after_done
    → s.holds (broker_rw id) ≡ []
    → s.holds store_rw ≡ []
    → IsCircle
        (move j (move i s))
        i
        j
        (broker_rw id)
        store_rw
        (rlock store_rw)
        (rlock (broker_rw id))
        (unlock store_rw ∷ lock client_rw ∷ unlock client_rw ∷ unlock (broker_rw id) ∷ after_ready)
        (unlock (broker_rw id) ∷ cancel_script ids (unlock store_rw ∷ after_done))
unfolding ready_script connect_script done_script cancel_script lock_eq writer
both_wait-IsCircle id ids after_ready after_done s i j d e f free free' =
    let first = move-takes s i (broker_rw id) _ e free in
    let second =
      move-takes (move i s) j store_rw (cancel_script (id ∷ ids) (unlock store_rw ∷ after_done))
        (rw first (ground (arith, d, f))) (rw first (ground (arith, free'))) in
    rw (second, first)
      record {
        first = record {
          holds = ground (arith, str_eq_refl id);
          script = ground (arith, d);
          takes = refl;
        };
        second = record {
          holds = ground (arith, str_eq_refl id);
          script = ground (arith, d);
          takes = refl;
        };
      }

-- A broker that becomes ready while `Store.Done` shuts the store down, in `reset` or in
-- `owerstaying`, comes to it first, and no mutex of the two is held: in two moves each holds the
-- mutex that the other waits for, and in no state after that has one of them come any further.
pub ready_done_deadlock :
    (s : Locks) (i j : ℕ) (id : Bytes) (ids : List Bytes) (after_ready after_done : List Op)
    → i ≢ j
    → s.scripts i ≡ ready_script id after_ready
    → s.scripts j ≡ done_script (id ∷ ids) after_done
    → s.holds (broker_rw id) ≡ []
    → s.holds store_rw ≡ []
    → (t : Locks) × Moves s t
      × ((u : Locks)
          → Moves t u
          → (u.scripts i ≡ connect_script (unlock (broker_rw id) ∷ after_ready))
            × (u.scripts j ≡ cancel_script (id ∷ ids) (unlock store_rw ∷ after_done)))
unfolding ready_script connect_script done_script cancel_script
ready_done_deadlock s i j id ids after_ready after_done d e f free free' = (
  move j (move i s),
  next (next here i) j,
  λ u v.
      let c = Moves-IsCircle i j (broker_rw id) store_rw _ _ _ _ v circle in
      (c.first.script, c.second.script),
)
  where
    circle :
        IsCircle
          (move j (move i s))
          i
          j
          (broker_rw id)
          store_rw
          (rlock store_rw)
          (rlock (broker_rw id))
          (unlock store_rw
            ∷ lock client_rw
            ∷ unlock client_rw
            ∷ unlock (broker_rw id)
            ∷ after_ready)
          (unlock (broker_rw id) ∷ cancel_script ids (unlock store_rw ∷ after_done))
    circle = both_wait-IsCircle id ids after_ready after_done s i j d e f free free'

Moves-trans : {s t u : Locks} → Moves s t → Moves t u → Moves s u
Moves-trans g here = g
Moves-trans g (next h i) = next (Moves-trans g h) i

-- The same of `owerstaying`, from its own start, while nobody holds the mutex of the client.
overstay_deadlock :
    (s : Locks) (i j : ℕ) (id : Bytes) (ids : List Bytes) (after_ready after_done : List Op)
    → i ≢ j
    → s.scripts i ≡ ready_script id after_ready
    → s.scripts j ≡ owerstaying_script (id ∷ ids) after_done
    → s.holds client_rw ≡ []
    → s.holds (broker_rw id) ≡ []
    → s.holds store_rw ≡ []
    → (t : Locks) × Moves s t
      × ((u : Locks)
          → Moves t u
          → (u.scripts i ≡ connect_script (unlock (broker_rw id) ∷ after_ready))
            × (u.scripts j ≡ cancel_script (id ∷ ids) (unlock store_rw ∷ after_done)))
unfolding owerstaying_script lock_eq
overstay_deadlock s i j id ids after_ready after_done d e f free free' free'' =
    let taken = move-takes s j client_rw (done_script (id ∷ ids) after_done) f free in
    let (t, go, stuck) =
      ready_done_deadlock (move j s) i j id ids after_ready after_done d
        (rw taken (ground (arith, d, e))) (rw taken (ground arith))
        (rw taken (ground (arith, free'))) (rw taken (ground (arith, free''))) in
    (t, Moves-trans (next here j) go, stuck)

-- ===== src/Client/Locks/Examples.antt =====
-- The theorems on the mutexes at inputs: broker "a" becomes ready while the brokers "a" and "b" are
-- cancelled.
use glider_client_go.Common.{◌≡◌, refl, [], ◌∷◌, lit, arith, ◌==◌, if◌then◌else◌}
use glider_client_go.Client.Locks.{
  Locks, broker_rw, store_rw, unlock, Moves, connect_script, ready_script, cancel_script,
  done_script,
}
use glider_client_go.Client.Locks.Deadlock.{ready_done_deadlock}

abbrev two_goroutines : Locks
two_goroutines = record {
  holds = λ m. [];
  scripts =
      λ i. if i == 0 then ready_script (lit "a") [] else done_script (lit "a" ∷ lit "b" ∷ []) [];
}

ready_done_deadlock_example :
    (t : Locks) × Moves two_goroutines t
    × ((u : Locks)
        → Moves t u
        → (u.scripts 0 ≡ connect_script (unlock (broker_rw (lit "a")) ∷ []))
          × (u.scripts 1 ≡ cancel_script (lit "a" ∷ lit "b" ∷ []) (unlock store_rw ∷ [])))
ready_done_deadlock_example =
    ready_done_deadlock two_goroutines 0 1 (lit "a") (lit "b" ∷ []) [] [] (omega arith) refl refl
      refl refl

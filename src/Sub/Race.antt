-- ===== src/Sub/Race.antt =====
-- Calls on the subscription store (sub/store.go) from several goroutines. A step is one critical
-- section: a lookup under the read lock, or a change under a write lock.
pub mod Invariant
pub mod Owners
pub mod Lost
use glider_client_go.Common.{
  ℕ, ◌+◌, ◌≡◌, refl, Bool, true, false, List, [], ◌∷◌, ◌++◌, Option, none, some, arith, Bytes, ◌==◌,
  if◌then◌else◌,
}
use glider_client_go.Common.Maps.{lookup}
use glider_client_go.Sub.{
  Handler, Sub, Store, create, append_handler, remove_handler, delete_entry, sub_recv,
}

module _ {ℓ} (Cb : Type ℓ) where
  -- Where a call of `Register`, `Unregister` or `Recv` stands; `delivered` has the goroutines that a
  -- `Recv` has started, each a callback and its payload.
  pub data Call : Type ℓ where
    reg_start : (name id : Bytes) → Cb → Call
    reg_create : (name id : Bytes) → Cb → Call
    reg_append : (name : Bytes) → ℕ → (id : Bytes) → Cb → Call
    unreg_start : (name id : Bytes) → Call
    unreg_remove : (name : Bytes) → ℕ → (id : Bytes) → Call
    unreg_delete : (name : Bytes) → Call
    recv_start : (name payload : Bytes) → Call
    recv_deliver : (name : Bytes) → ℕ → (payload : Bytes) → Call
    delivered : (name payload : Bytes) → List (Cb × Bytes) → Call
    returned : Call

  pub record System : Type ℓ where
    pub store : Store Cb
    pub calls : ℕ → Call

module _ {ℓ} {Cb : Type ℓ} where
  -- The call and the store after the next critical section.
  unfoldable pub advance : Store Cb → Call Cb → Store Cb × Call Cb
  advance s (Call.reg_start name id cb) = elim (lookup name s.list) [
    | some p ↦ (s, Call.reg_append name p id cb)
    | none ↦ (s, Call.reg_create name id cb)
  ]
  advance s (Call.reg_create name id cb) =
      let (s', p) = create s name in (s', Call.reg_append name p id cb)
  advance s (Call.reg_append name p id cb) = (append_handler s p id cb, Call.returned)
  advance s (Call.unreg_start name id) = elim (lookup name s.list) [
    | some p ↦ (s, Call.unreg_remove name p id)
    | none ↦ (s, Call.returned)
  ]
  advance s (Call.unreg_remove name p id) =
      let (s', empty) = remove_handler s p id in
      (s', if empty then Call.unreg_delete name else Call.returned)
  advance s (Call.unreg_delete name) = (delete_entry s name, Call.returned)
  advance s (Call.recv_start name payload) = elim (lookup name s.list) [
    | some p ↦ (s, Call.recv_deliver name p payload)
    | none ↦ (s, Call.delivered name payload [])
  ]
  advance s (Call.recv_deliver name p payload) =
      (s, Call.delivered name payload (sub_recv (s.subs p) payload))
  advance s (Call.delivered name payload ds) = (s, Call.delivered name payload ds)
  advance s Call.returned = (s, Call.returned)

  abbrev set_call : (ℕ → Call Cb) → ℕ → Call Cb → ℕ → Call Cb
  set_call f i c j = if j == i then c else f j

  -- Goroutine `i` makes its next step.
  unfoldable pub turn : ℕ → System Cb → System Cb
  turn i s =
      let (store, call) = advance s.store (s.calls i) in
      record { store = store; calls = set_call s.calls i call }

  -- Any order of steps.
  pub data Reach (s : System Cb) : System Cb → Type ℓ where
    here : Reach s s
    next : {t : System Cb} → Reach s t → (i : ℕ) → Reach s (turn i t)

  -- The run of a given schedule.
  unfoldable pub run : List ℕ → System Cb → System Cb
  run [] s = s
  run (i ∷ is) s = run is (turn i s)

-- ===== src/Sub/Race/Owners.antt =====
-- What holds of the subscription store (sub/store.go) in every interleaving, and what does not.
use glider_client_go.Common.{ℕ, ◌≡◌, refl, List, [], Bytes, subst, All}
use glider_client_go.Common.Maps.{lookup}
use glider_client_go.Sub.{Handler, new}
use glider_client_go.Sub.Race.{Call, System, Reach}
use glider_client_go.Sub.Race.Invariant.{IsFor, CallInv, Inv, Reach-Inv}

module _ {ℓ} {Cb : Type ℓ} where
  -- A call that has not begun, or none.
  abbrev pub Begins : Call Cb → Type 0
  Begins (Call.reg_start name id cb) = Unit {0}
  Begins (Call.unreg_start name id) = Unit {0}
  Begins (Call.recv_start name payload) = Unit {0}
  Begins Call.returned = Unit {0}
  Begins _ = ⊥

  -- Goroutine `i` asks to register `h` for the event `name`.
  abbrev pub AskedBy : (ℕ → Call Cb) → Bytes → Handler Cb → Type ℓ
  AskedBy calls name h = (i : ℕ) × (calls i ≡ Call.reg_start name h.id h.cb)

  Begins-CallInv :
      (calls : ℕ → Call Cb) (i : ℕ) (c : Call Cb)
      → calls i ≡ c
      → Begins c
      → CallInv (AskedBy calls) 0 (λ _. []) c
  Begins-CallInv calls i (Call.reg_start name id cb) e b = (i, e)
  Begins-CallInv calls i (Call.reg_create name id cb) e b = absurd b
  Begins-CallInv calls i (Call.reg_append name p id cb) e b = absurd b
  Begins-CallInv calls i (Call.unreg_start name id) e b = tt
  Begins-CallInv calls i (Call.unreg_remove name p id) e b = absurd b
  Begins-CallInv calls i (Call.unreg_delete name) e b = absurd b
  Begins-CallInv calls i (Call.recv_start name payload) e b = tt
  Begins-CallInv calls i (Call.recv_deliver name p payload) e b = absurd b
  Begins-CallInv calls i (Call.delivered name payload ds) e b = absurd b
  Begins-CallInv calls i Call.returned e b = tt

  -- In every interleaving of calls of `Register`, `Unregister` and `Recv` on a new store, none of them
  -- under way at first: a `Recv` that is done has started only callbacks that some call registers for
  -- the event of its message, each with the payload of its message.
  pub Reach-delivered :
      (calls : ℕ → Call Cb) {t : System Cb} (i : ℕ) (name payload : Bytes) (ds : List (Cb × Bytes))
      → ((j : ℕ) → Begins (calls j))
      → Reach (record { store = new; calls = calls }) t
      → t.calls i ≡ Call.delivered name payload ds
      → All (IsFor (AskedBy calls) name payload) ds
  Reach-delivered calls {t} i name payload ds begin r done =
      let inv : Inv (AskedBy calls) t =
        Reach-Inv (AskedBy calls) {s = record { store = new; calls = calls }}
          (record {
            owner = λ _. [];
            store = unfold new lookup in record { entry = λ n p e. cc; stored = λ p. tt };
            calls = λ j. unfold new in Begins-CallInv calls j (calls j) refl (begin j);
          })
          r in
      subst (CallInv (AskedBy calls) t.store.fresh inv.owner) done (inv.calls i)

-- ===== src/Sub.antt =====
-- sub/sub.go and sub/store.go: handlers by event name. The store maps a name to a pointer, and the
-- subscriptions stand on a heap. `Cb` is the type of callbacks (ReceiveFunc); a new UUID is an
-- argument of the call that draws it.
pub mod Refine
pub mod Race
mod Examples
use glider_client_go.Common.{
  ℕ, suc, ◌+◌, Bool, true, false, not, List, [], ◌∷◌, ◌++◌, map, Option, none, some, arith, length,
  keep, Bytes, str_eq, ◌==◌, if◌then◌else◌,
}
use glider_client_go.Common.Maps.{lookup, insert, delete}

module _ {ℓ} (Cb : Type ℓ) where
  pub record Handler : Type ℓ where
    pub id : Bytes
    pub cb : Cb

  -- `ID` and `Name` are never set by the store.
  pub record Sub : Type ℓ where
    pub handlers : List Handler

  pub record Store : Type ℓ where
    pub list : List (Bytes × ℕ)
    pub subs : ℕ → Sub
    pub fresh : ℕ

module _ {ℓ} {Cb : Type ℓ} where
  -- Sub.Register
  unfoldable pub sub_register : Sub Cb → Bytes → Cb → Sub Cb
  sub_register s id cb = record { handlers = s.handlers ++ record { id = id; cb = cb } ∷ [] }

  abbrev pub is_empty : List (Handler Cb) → Bool
  is_empty [] = true
  is_empty (h ∷ hs) = false

  -- The handlers with another id.
  abbrev pub others : Bytes → List (Handler Cb) → List (Handler Cb)
  others id = keep (λ h. not (str_eq h.id id))

  -- Sub.Unregister, with the answer whether no handler remains.
  unfoldable pub sub_unregister : Sub Cb → Bytes → Sub Cb × Bool
  sub_unregister s id =
      let handlers = others id s.handlers in (record { handlers = handlers }, is_empty handlers)

  -- Sub.Recv: the goroutines started, each a callback and its payload.
  unfoldable pub sub_recv : Sub Cb → Bytes → List (Cb × Bytes)
  sub_recv s payload = map (λ h. (h.cb, payload)) s.handlers

  abbrev pub update : (ℕ → Sub Cb) → ℕ → Sub Cb → ℕ → Sub Cb
  update f p v q = if q == p then v else f q

  -- New
  unfoldable pub new : Store Cb
  new = record { list = []; subs = λ _. record { handlers = [] }; fresh = 0 }

  -- `ss = &Sub{}; s.list[name] = ss`
  unfoldable pub create : Store Cb → Bytes → Store Cb × ℕ
  create s name = (
    record {
      list = insert name s.fresh s.list;
      subs = update s.subs s.fresh (record { handlers = [] });
      fresh = s.fresh + 1;
    },
    s.fresh,
  )

  -- `ss.Register(id, fn)` through the pointer
  unfoldable pub append_handler : Store Cb → ℕ → Bytes → Cb → Store Cb
  append_handler s p id cb = record s { subs = update s.subs p (sub_register (s.subs p) id cb) }

  -- Store.Register
  unfoldable pub register : Store Cb → Bytes → Bytes → Cb → Store Cb
  register s name id cb = elim (lookup name s.list) [
    | some p ↦ append_handler s p id cb
    | none ↦ let (s', p) = create s name in append_handler s' p id cb
  ]

  -- `ok = ss.Unregister(id)` through the pointer
  unfoldable pub remove_handler : Store Cb → ℕ → Bytes → Store Cb × Bool
  remove_handler s p id =
      let (sub, empty) = sub_unregister (s.subs p) id in
      (record s { subs = update s.subs p sub }, empty)

  -- `delete(s.list, name)`
  unfoldable pub delete_entry : Store Cb → Bytes → Store Cb
  delete_entry s name = record s { list = delete name s.list }

  -- Store.Unregister
  unfoldable pub unregister : Store Cb → Bytes → Bytes → Store Cb
  unregister s name id = elim (lookup name s.list) [
    | none ↦ s
    | some p ↦ let (s', empty) = remove_handler s p id in if empty then delete_entry s' name else s'
  ]

  -- Store.Recv, of a message by its name and payload.
  unfoldable pub recv : Store Cb → Bytes → Bytes → List (Cb × Bytes)
  recv s name payload = elim (lookup name s.list) [
    | none ↦ []
    | some p ↦ sub_recv (s.subs p) payload
  ]

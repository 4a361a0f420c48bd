-- ===== src/Sub/Race/Invariant.antt =====
-- The invariant of concurrent calls on the subscription store (sub/store.go): who asked for what.
use glider_client_go.Common.{
  ℕ, ◌<◌, ◌≤◌, ◌≡◌, inl, inr, refl, ◌∙◌, List, [], ◌∷◌, some, arith, Bytes, str_eq, str_eq_iff,
  subst, ◌==◌, if◌then◌else◌, Option-cases, Bool-cases, ==_iff, All, All-append,
}
use glider_client_go.Common.Maps.{lookup, lookup-insert, lookup-delete}
use glider_client_go.Sub.{
  Handler, Store, others, create, append_handler, remove_handler, delete_entry, sub_register,
  sub_unregister, sub_recv,
}
use glider_client_go.Sub.Race.{Call, System, advance, turn, Reach, here, next}

module _ {ℓ κ} {Cb : Type ℓ} (Asked : Bytes → Handler Cb → Type κ) where
  -- A callback started with the payload, of a handler that was asked for the event.
  abbrev pub IsFor : Bytes → Bytes → Cb × Bytes → Type κ
  IsFor name payload d = (id : Bytes) × Asked name (record { id = id; cb = d.0 }) × (d.1 ≡ payload)

  -- A call that registers a handler was asked to, and holds a pointer of its event.
  abbrev pub CallInv : ℕ → (ℕ → Bytes) → Call Cb → Type κ
  CallInv fresh owner (Call.reg_start name id cb) = Asked name (record { id = id; cb = cb })
  CallInv fresh owner (Call.reg_create name id cb) = Asked name (record { id = id; cb = cb })
  CallInv fresh owner (Call.reg_append name p id cb) =
      Asked name (record { id = id; cb = cb }) × (p < fresh) × (owner p ≡ name)
  CallInv fresh owner (Call.unreg_start name id) = Unit {κ}
  CallInv fresh owner (Call.unreg_remove name p id) = Unit {κ}
  CallInv fresh owner (Call.unreg_delete name) = Unit {κ}
  CallInv fresh owner (Call.recv_start name payload) = Unit {κ}
  CallInv fresh owner (Call.recv_deliver name p payload) = Unit {κ} × (p < fresh) × (owner p ≡ name)
  CallInv fresh owner (Call.delivered name payload ds) = All (IsFor name payload) ds
  CallInv fresh owner Call.returned = Unit {κ}

  CallInv-mono :
      (f f' : ℕ) (o o' : ℕ → Bytes) (c : Call Cb)
      → f ≤ f'
      → ((p : ℕ) → p < f → o' p ≡ o p)
      → CallInv f o c
      → CallInv f' o' c
  CallInv-mono f f' o o' (Call.reg_start name id cb) le same h = h
  CallInv-mono f f' o o' (Call.reg_create name id cb) le same h = h
  CallInv-mono f f' o o' (Call.reg_append name p id cb) le same (a, lt, e) =
      (a, omega arith, same p lt ∙ e)
  CallInv-mono f f' o o' (Call.unreg_start name id) le same h = tt
  CallInv-mono f f' o o' (Call.unreg_remove name p id) le same h = tt
  CallInv-mono f f' o o' (Call.unreg_delete name) le same h = tt
  CallInv-mono f f' o o' (Call.recv_start name payload) le same h = tt
  CallInv-mono f f' o o' (Call.recv_deliver name p payload) le same (u, lt, e) =
      (u, omega arith, same p lt ∙ e)
  CallInv-mono f f' o o' (Call.delivered name payload ds) le same h = h
  CallInv-mono f f' o o' Call.returned le same h = tt

  -- Each subscription has one event, and holds only handlers that were asked for it.
  pub record StoreInv (owner : ℕ → Bytes) (s : Store Cb) : Type (ℓ ⊔ κ) where
    pub entry : (n : Bytes) (p : ℕ) → lookup n s.list ≡ some p → (p < s.fresh) × (owner p ≡ n)
    pub stored : (p : ℕ) → All (Asked (owner p)) (s.subs p).handlers

  All-others :
      (P : Handler Cb → Type κ) (id : Bytes) (hs : List (Handler Cb))
      → All P hs
      → All P (others id hs)
  All-others P id [] a = tt
  All-others P id (h ∷ hs) a = elim (Bool-cases (str_eq h.id id)) [
    | inl e ↦ rw e (All-others P id hs a.1)
    | inr e ↦ rw e (a.0, All-others P id hs a.1)
  ]

  create-StoreInv :
      (owner : ℕ → Bytes) (s : Store Cb) (name : Bytes)
      → StoreInv owner s
      → StoreInv (λ q. if q == s.fresh then name else owner q) (create s name).0
  unfolding create
  create-StoreInv owner s name inv = record {
    entry = λ n p e.
        ground (arith, lookup-insert name n s.fresh s.list, str_eq_iff name n, inv.entry n p);
    stored =
        λ p. elim (Bool-cases (p == s.fresh)) [ inl e ↦ rw e tt | inr e ↦ rw e (inv.stored p) ];
  }

  append-StoreInv :
      (owner : ℕ → Bytes) (s : Store Cb) (p : ℕ) (id : Bytes) (cb : Cb)
      → Asked (owner p) (record { id = id; cb = cb })
      → StoreInv owner s
      → StoreInv owner (append_handler s p id cb)
  unfolding append_handler sub_register
  append-StoreInv owner s p id cb a inv = record {
    entry = inv.entry;
    stored = λ q. elim (Bool-cases (q == p)) [
      | inl e ↦
          let same : q ≡ p = (==_iff q p).0 e in
          rw e (rw same (All-append (Asked (owner p)) (s.subs p).handlers _ (inv.stored p) (a, tt)))
      | inr e ↦ rw e (inv.stored q)
    ];
  }

  remove-StoreInv :
      (owner : ℕ → Bytes) (s : Store Cb) (p : ℕ) (id : Bytes)
      → StoreInv owner s
      → StoreInv owner (remove_handler s p id).0
  unfolding remove_handler sub_unregister
  remove-StoreInv owner s p id inv = record {
    entry = inv.entry;
    stored = λ q. elim (Bool-cases (q == p)) [
      | inl e ↦
          let same : q ≡ p = (==_iff q p).0 e in
          rw e (rw same (All-others (Asked (owner p)) id (s.subs p).handlers (inv.stored p)))
      | inr e ↦ rw e (inv.stored q)
    ];
  }

  delete-StoreInv :
      (owner : ℕ → Bytes) (s : Store Cb) (name : Bytes)
      → StoreInv owner s
      → StoreInv owner (delete_entry s name)
  unfolding delete_entry
  delete-StoreInv owner s name inv = record {
    entry = λ n p e. ground (arith, lookup-delete name n s.list, inv.entry n p);
    stored = inv.stored;
  }

  sub_recv-IsFor :
      (name payload : Bytes) (hs : List (Handler Cb))
      → All (Asked name) hs
      → All (IsFor name payload) (sub_recv (record { handlers = hs }) payload)
  unfolding sub_recv
  sub_recv-IsFor name payload [] a = tt
  sub_recv-IsFor name payload (h ∷ hs) a = ((h.id, a.0, refl), sub_recv-IsFor name payload hs a.1)

  record Step (owner : ℕ → Bytes) (s : Store Cb) (t : Store Cb) (c : Call Cb) : Type (ℓ ⊔ κ) where
    owner' : ℕ → Bytes
    same : (p : ℕ) → p < s.fresh → owner' p ≡ owner p
    grows : s.fresh ≤ t.fresh
    store : StoreInv owner' t
    call : CallInv t.fresh owner' c

  advance-Step :
      (owner : ℕ → Bytes) (s : Store Cb) (c : Call Cb)
      → StoreInv owner s
      → CallInv s.fresh owner c
      → Step owner s (advance s c).0 (advance s c).1
  unfolding advance
  advance-Step owner s (Call.reg_start name id cb) inv h =
      elim (Option-cases (lookup name s.list)) [
        | inl e ↦
            rw (e, advance)
              record {
                owner' = owner;
                same = λ p _. refl;
                grows = omega arith;
                store = inv;
                call = h;
              }
        | inr (p, e) ↦
            rw (e, advance)
              record {
                owner' = owner;
                same = λ p _. refl;
                grows = omega arith;
                store = inv;
                call = (h, (inv.entry name p e).0, (inv.entry name p e).1);
              }
      ]
  advance-Step owner s (Call.reg_create name id cb) inv h = record {
    owner' = λ q. if q == s.fresh then name else owner q;
    same = λ p lt. ground arith;
    grows = unfold create in omega arith;
    store = create-StoreInv owner s name inv;
    call = unfold create in (h, omega arith, ground arith);
  }
  advance-Step owner s (Call.reg_append name p id cb) inv (a, lt, e) = record {
    owner' = owner;
    same = λ p _. refl;
    grows = unfold append_handler in omega arith;
    store = append-StoreInv owner s p id cb (rw e a) inv;
    call = tt;
  }
  advance-Step owner s (Call.unreg_start name id) inv h = elim (Option-cases (lookup name s.list)) [
    | inl e ↦
        rw (e, advance)
          record { owner' = owner; same = λ p _. refl; grows = omega arith; store = inv; call = tt }
    | inr (p, e) ↦
        rw (e, advance)
          record { owner' = owner; same = λ p _. refl; grows = omega arith; store = inv; call = tt }
  ]
  advance-Step owner s (Call.unreg_remove name p id) inv h = record {
    owner' = owner;
    same = λ p _. refl;
    grows = unfold remove_handler in omega arith;
    store = remove-StoreInv owner s p id inv;
    call = elim (Bool-cases (remove_handler s p id).1) [ inl e ↦ rw e tt | inr e ↦ rw e tt ];
  }
  advance-Step owner s (Call.unreg_delete name) inv h = record {
    owner' = owner;
    same = λ p _. refl;
    grows = unfold delete_entry in omega arith;
    store = delete-StoreInv owner s name inv;
    call = tt;
  }
  advance-Step owner s (Call.recv_start name payload) inv h =
      elim (Option-cases (lookup name s.list)) [
        | inl e ↦
            rw (e, advance)
              record {
                owner' = owner;
                same = λ p _. refl;
                grows = omega arith;
                store = inv;
                call = tt;
              }
        | inr (p, e) ↦
            rw (e, advance)
              record {
                owner' = owner;
                same = λ p _. refl;
                grows = omega arith;
                store = inv;
                call = (tt, (inv.entry name p e).0, (inv.entry name p e).1);
              }
      ]
  advance-Step owner s (Call.recv_deliver name p payload) inv (u, lt, e) = record {
    owner' = owner;
    same = λ p _. refl;
    grows = omega arith;
    store = inv;
    call =
        sub_recv-IsFor name payload (s.subs p).handlers
          (subst (λ n. All (Asked n) (s.subs p).handlers) e (inv.stored p));
  }
  advance-Step owner s (Call.delivered name payload ds) inv h = record {
    owner' = owner;
    same = λ p _. refl;
    grows = omega arith;
    store = inv;
    call = h;
  }
  advance-Step owner s Call.returned inv h = record {
    owner' = owner;
    same = λ p _. refl;
    grows = omega arith;
    store = inv;
    call = tt;
  }

  pub record Inv (s : System Cb) : Type (ℓ ⊔ κ) where
    pub owner : ℕ → Bytes
    pub store : StoreInv owner s.store
    pub calls : (i : ℕ) → CallInv s.store.fresh owner (s.calls i)

  turn-Inv : (i : ℕ) (s : System Cb) → Inv s → Inv (turn i s)
  unfolding turn
  turn-Inv i s inv =
      let st = advance-Step inv.owner s.store (s.calls i) inv.store (inv.calls i) in
      record {
        owner = st.owner';
        store = st.store;
        calls = λ j. elim (Bool-cases (j == i)) [
          | inl e ↦ rw e st.call
          | inr e ↦ rw e (CallInv-mono _ _ _ _ (s.calls j) st.grows st.same (inv.calls j))
        ];
      }

  pub Reach-Inv : {s t : System Cb} → Inv s → Reach s t → Inv t
  Reach-Inv inv here = inv
  Reach-Inv inv (next r i) = turn-Inv i _ (Reach-Inv inv r)

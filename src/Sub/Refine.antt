-- ===== src/Sub/Refine.antt =====
-- The subscription store (sub/store.go, sub/sub.go) as a function from event names to handlers.
use glider_client_go.Common.{
  All, str_eq_refl, subst, ℕ, ◌<◌, ◌≡◌, inl, inr, refl, ap, ◌∙◌, false, List, [], ◌∷◌, ◌++◌, map,
  Option, none, some, arith, Bytes, str_eq, str_eq_iff, if◌then◌else◌, Option-cases, Bool-cases,
}
use glider_client_go.Common.Maps.{lookup, lookup-insert, lookup-delete}
use glider_client_go.Sub.{
  Handler, Store, is_empty, others, new, create, append_handler, register, remove_handler,
  delete_entry, unregister, recv, sub_register, sub_unregister, sub_recv,
}

module _ {ℓ} {Cb : Type ℓ} where
  -- The abstract view: the handlers of an event, in order of registration.
  abbrev pub at_ptr : Store Cb → Option ℕ → List (Handler Cb)
  at_ptr s none = []
  at_ptr s (some p) = (s.subs p).handlers

  unfoldable pub handlers_of : Store Cb → Bytes → List (Handler Cb)
  handlers_of s name = at_ptr s (lookup name s.list)

  -- Each pointer is allocated, belongs to one event, and leads to a handler at least.
  pub record IsWf (s : Store Cb) : Type ℓ where
    pub allocated : (n : Bytes) (p : ℕ) → lookup n s.list ≡ some p → p < s.fresh
    pub unshared :
        (n m : Bytes) (p : ℕ) → lookup n s.list ≡ some p → lookup m s.list ≡ some p → n ≡ m
    pub used : (n : Bytes) (p : ℕ) → lookup n s.list ≡ some p → is_empty (s.subs p).handlers ≡ false

  pub new-IsWf : IsWf new
  unfolding new lookup
  new-IsWf = record { allocated = λ n p e. cc; unshared = λ n m p e f. cc; used = λ n p e. cc }

  is_empty-append : (hs : List (Handler Cb)) (h : Handler Cb) → is_empty (hs ++ h ∷ []) ≡ false
  is_empty-append [] h = refl
  is_empty-append (x ∷ hs) h = refl

  -- In a well-formed store a new handler comes last among the handlers of its event, and no other
  -- event changes.
  pub handlers_of-register :
      (s : Store Cb) (name id m : Bytes) (cb : Cb)
      → IsWf s
      → handlers_of (register s name id cb) m ≡ (
          if str_eq name m
          then handlers_of s m ++ record { id = id; cb = cb } ∷ []
          else handlers_of s m)
  unfolding handlers_of register append_handler sub_register create
  handlers_of-register s name id m cb wf = elim (Option-cases (lookup name s.list)) [
    | inl e ↦ elim (Option-cases (lookup m s.list)) [
      | inl f ↦ ground (arith, e, f, str_eq_iff name m, lookup-insert name m s.fresh s.list)
      | inr (q, f) ↦
          ground (
            arith,
            e,
            f,
            str_eq_iff name m,
            lookup-insert name m s.fresh s.list,
            wf.allocated m q f,
          )
    ]
    | inr (p, e) ↦ elim (Option-cases (lookup m s.list)) [
      | inl f ↦ ground (arith, e, f, str_eq_iff name m)
      | inr (q, f) ↦ ground (arith, e, f, str_eq_iff name m, wf.unshared name m p e)
    ]
  ]

  -- A registration keeps the store well formed: a new event gets a pointer of its own.
  pub register-IsWf :
      (s : Store Cb) (name id : Bytes) (cb : Cb) → IsWf s → IsWf (register s name id cb)
  unfolding register append_handler sub_register create
  register-IsWf s name id cb wf = elim (Option-cases (lookup name s.list)) [
    | inl e ↦
        rw (e, register)
          record {
            allocated =
                λ n p h. ground (arith, lookup-insert name n s.fresh s.list, wf.allocated n p);
            unshared = λ n m p h k. ground (
              arith,
              lookup-insert name n s.fresh s.list,
              lookup-insert name m s.fresh s.list,
              str_eq_iff name n,
              str_eq_iff name m,
              wf.unshared n m p,
              wf.allocated n p,
              wf.allocated m p,
            );
            used = λ n p h.
                ground (arith, lookup-insert name n s.fresh s.list, wf.used n p, wf.allocated n p);
          }
    | inr (q, e) ↦
        rw (e, register)
          record {
            allocated = wf.allocated;
            unshared = wf.unshared;
            used = λ n p h. ground (
              arith,
              wf.used n p,
              is_empty-append (s.subs q).handlers (record { id = id; cb = cb }),
            );
          }
  ]

  -- In a well-formed store unregistering removes the handlers of that id from that event alone.
  pub handlers_of-unregister :
      (s : Store Cb) (name id m : Bytes)
      → IsWf s
      → handlers_of (unregister s name id) m
        ≡ (if str_eq name m then others id (handlers_of s m) else handlers_of s m)
  unfolding handlers_of unregister remove_handler sub_unregister delete_entry
  handlers_of-unregister s name id m wf = elim (Option-cases (lookup name s.list)) [
    | inl e ↦ ground (arith, e, str_eq_iff name m)
    | inr (p, e) ↦ elim (Option-cases (lookup m s.list)) [
      | inl f ↦ ground (arith, e, f, str_eq_iff name m, lookup-delete name m s.list)
      | inr (q, f) ↦
          ground
            (arith, e, f, str_eq_iff name m, lookup-delete name m s.list, wf.unshared name m p e)
    ]
  ]

  -- So does an unregistration: an event whose last handler goes loses its entry.
  pub unregister-IsWf : (s : Store Cb) (name id : Bytes) → IsWf s → IsWf (unregister s name id)
  unfolding unregister remove_handler sub_unregister delete_entry
  unregister-IsWf s name id wf = elim (Option-cases (lookup name s.list)) [
    | inl e ↦ rw (e, unregister) wf
    | inr (q, e) ↦ elim (Bool-cases (is_empty (others id (s.subs q).handlers))) [
      | inl gone ↦
          rw (e, unregister)
            (rw gone record {
              allocated = λ n p h. ground (arith, lookup-delete name n s.list, wf.allocated n p);
              unshared = λ n m p h k. ground (
                arith,
                lookup-delete name n s.list,
                lookup-delete name m s.list,
                wf.unshared n m p,
              );
              used = λ n p h. ground (
                arith,
                lookup-delete name n s.list,
                str_eq_iff name n,
                wf.used n p,
                wf.unshared name n q e,
              );
            })
      | inr left ↦
          rw (e, unregister)
            (rw left record {
              allocated = wf.allocated;
              unshared = wf.unshared;
              used = λ n p h. ground (arith, wf.used n p, left);
            })
    ]
  ]

  -- A message goes to each handler of its event once, in order, and to no other.
  pub recv-handlers_of :
      (s : Store Cb) (name payload : Bytes)
      → recv s name payload ≡ map (λ h. (h.cb, payload)) (handlers_of s name)
  unfolding recv handlers_of sub_recv
  recv-handlers_of s name payload = elim (Option-cases (lookup name s.list)) [
    | inl e ↦ ground (arith, e)
    | inr (p, e) ↦ ground (arith, e)
  ]

  map-append_last :
      (f : Handler Cb → Cb × Bytes) (hs : List (Handler Cb)) (h : Handler Cb)
      → map f (hs ++ h ∷ []) ≡ map f hs ++ f h ∷ []
  map-append_last f [] h = refl
  map-append_last f (x ∷ hs) h = ap (λ (l : List (Cb × Bytes)). f x ∷ l) (map-append_last f hs h)

  -- After a registration a message of that event goes to the new handler too, after all those that
  -- it went to before, and a message of another event goes where it went.
  recv-register_last :
      (s : Store Cb) (name id m payload : Bytes) (cb : Cb)
      → IsWf s
      → recv (register s name id cb) m payload
        ≡ (if str_eq name m then recv s m payload ++ (cb, payload) ∷ [] else recv s m payload)
  recv-register_last s name id m payload cb wf =
      recv-handlers_of (register s name id cb) m payload
      ∙ rw (handlers_of-register s name id m cb wf, recv-handlers_of s m payload)
          (elim (Bool-cases (str_eq name m)) [
            | inl same ↦ rw same (map-append_last _ (handlers_of s m) _)
            | inr differ ↦ rw differ refl
          ])

  others_absent :
      (id : Bytes) (hs : List (Handler Cb))
      → All (λ h. str_eq h.id id ≡ false) hs
      → others id hs ≡ hs
  others_absent id [] a = refl
  others_absent id (h ∷ hs) a = ground (arith, others_absent id hs a.1)

  others-append_last :
      (id : Bytes) (cb : Cb) (hs : List (Handler Cb))
      → others id (hs ++ record { id = id; cb = cb } ∷ []) ≡ others id hs
  others-append_last id cb [] = rw str_eq_refl refl
  others-append_last id cb (h ∷ hs) = ground (arith, others-append_last id cb hs)

  -- In a well-formed store, unregistering under the id that `Register` drew gives back the handlers of every event, if no
  -- handler of the event had that id.
  unregister-register :
      (s : Store Cb) (name id m : Bytes) (cb : Cb)
      → IsWf s
      → All (λ h. str_eq h.id id ≡ false) (handlers_of s name)
      → handlers_of (unregister (register s name id cb) name id) m ≡ handlers_of s m
  unregister-register s name id m cb wf absent =
      handlers_of-unregister (register s name id cb) name id m (register-IsWf s name id cb wf)
      ∙ rw (handlers_of-register s name id m cb wf) (elim (Bool-cases (str_eq name m)) [
        | inl same ↦ rw same (
            others-append_last id cb (handlers_of s m)
            ∙ others_absent id (handlers_of s m) (
                subst (λ k. All (λ h. str_eq h.id id ≡ false) (handlers_of s k))
                  ((str_eq_iff name m).0 same) absent))
        | inr differ ↦ rw differ refl
      ])

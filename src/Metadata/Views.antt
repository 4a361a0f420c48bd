-- ===== src/Metadata/Views.antt =====
-- What a context shows of its metadata, and which contexts a call changes (metadata/metadata.go,
-- error.go, message/context.go, project.go).
use glider_client_go.Common.{
  ℕ, ◌+◌, ◌<◌, ◌≡◌, ◌⊎◌, inl, inr, refl, Bool, false, Option, none, some, arith, Bytes, str_eq,
  ◌==◌, if◌then◌else◌, Option-cases,
}
use glider_client_go.Std.Context.{Context, with_value, value, key_eq}
use glider_client_go.Proto.{Message}
use glider_client_go.Metadata.{
  Md, Heap, Value, md_pointer, typed, text, empty_md, store_md, md_key, md_with_context,
  meta_from_context, filled, from_recv, with_error, message_with_context, message_from_recv,
}

abbrev at_pointer : Heap → Option ℕ → Md
at_pointer h none = empty_md
at_pointer h (some p) = h.mds p

abbrev same_pointer : Option ℕ → Option ℕ → Bool
same_pointer (some p) (some q) = p == q
same_pointer (some p) none = false
same_pointer none q = false

abbrev allocate : Heap → Heap × ℕ
allocate h = (record (store_md h h.fresh empty_md) { fresh = h.fresh + 1 }, h.fresh)

module _ {ℓ} {T : Type ℓ} where
  -- The metadata pointer of a context.
  unfoldable pub pointer_of : Context (Value T) → Option ℕ
  pointer_of ctx = elim (value ctx md_key) [ some (md_pointer p) ↦ some p | _ ↦ none ]

  -- What `MetaFromContext` shows.
  unfoldable pub read : Heap → Context (Value T) → Md
  read h ctx = at_pointer h (pointer_of ctx)

  -- The pointer of a context is allocated.
  abbrev pub IsAllocated : Heap → Context (Value T) → Type 0
  IsAllocated h ctx = (p : ℕ) → pointer_of ctx ≡ some p → p < h.fresh

  -- Both contexts hold one pointer.
  unfoldable pub shares : Context (Value T) → Context (Value T) → Bool
  shares c d = same_pointer (pointer_of c) (pointer_of d)

  pub meta_from_context_cases :
      (h : Heap) (ctx : Context (Value T))
      → ((p : ℕ) × (pointer_of ctx ≡ some p) × (meta_from_context h ctx ≡ (h, p)))
        ⊎ ((pointer_of ctx ≡ none) × (meta_from_context h ctx ≡ allocate h))
  unfolding meta_from_context pointer_of
  meta_from_context_cases h ctx = elim (Option-cases (value ctx md_key)) [
    | inl e ↦ inr (rw (e, pointer_of) refl, rw (e, meta_from_context) refl)
    | inr (md_pointer p, e) ↦ inl (p, rw (e, pointer_of) refl, rw (e, meta_from_context) refl)
    | inr (typed t, e) ↦ inr (rw (e, pointer_of) refl, rw (e, meta_from_context) refl)
    | inr (text t, e) ↦ inr (rw (e, pointer_of) refl, rw (e, meta_from_context) refl)
  ]

  pub pointer_of-md_with_context :
      (p : ℕ) (ctx : Context (Value T)) → pointer_of (md_with_context p ctx) ≡ some p
  unfolding pointer_of md_with_context value with_value key_eq str_eq
  pointer_of-md_with_context p ctx = refl

  -- `md := MetaFromContext(ctx)`, an assignment to its fields, and `md.WithContext(ctx)`.
  unfoldable pub modify : (Md → Md) → Heap → Context (Value T) → Heap × Context (Value T)
  modify f h ctx =
      let (h', p) = meta_from_context h ctx in (store_md h' p (f (h'.mds p)), md_with_context p ctx)

  pub read-modify :
      (f : Md → Md) (h : Heap) (ctx : Context (Value T))
      → read (modify f h ctx).0 (modify f h ctx).1 ≡ f (read h ctx)
  unfolding modify read
  read-modify f h ctx = elim (meta_from_context_cases h ctx) [
    | inl (p, e, m) ↦ ground (arith, e, m, pointer_of-md_with_context p ctx)
    | inr (e, m) ↦ ground (arith, e, m, pointer_of-md_with_context h.fresh ctx)
  ]

  read-modify_other :
      (f : Md → Md) (h : Heap) (ctx d : Context (Value T))
      → IsAllocated h d
      → read (modify f h ctx).0 d ≡ (if shares ctx d then f (read h ctx) else read h d)
  unfolding modify read shares
  read-modify_other f h ctx d a = elim (Option-cases (pointer_of d)) [
    | inl n ↦ elim (meta_from_context_cases h ctx) [
      | inl (p, e, m) ↦ ground (arith, n, e, m)
      | inr (e, m) ↦ ground (arith, n, e, m)
    ]
    | inr (q, n) ↦ elim (meta_from_context_cases h ctx) [
      | inl (p, e, m) ↦ ground (arith, n, e, m, a q n)
      | inr (e, m) ↦ ground (arith, n, e, m, a q n)
    ]
  ]

  -- The context that `FromRecv` returns shows the metadata of the given one, filled from the
  -- message; any other allocated context shows that too if it holds the pointer of the given one, and
  -- what it showed before if not.
  read-from_recv :
      (h : Heap) (ctx d : Context (Value T)) (msg : Message)
      → IsAllocated h d
      → (read (from_recv h ctx msg).0 (from_recv h ctx msg).1 ≡ filled (read h ctx) msg)
        × (read (from_recv h ctx msg).0 d
            ≡ (if shares ctx d then filled (read h ctx) msg else read h d))
  unfolding from_recv modify
  read-from_recv h ctx d msg a =
      (read-modify (λ md. filled md msg) h ctx, read-modify_other (λ md. filled md msg) h ctx d a)

  -- The same of `WithError`, which sets the error alone.
  read-with_error :
      (h : Heap) (ctx d : Context (Value T)) (e : Option Bytes)
      → IsAllocated h d
      → (read (with_error h ctx e).0 (with_error h ctx e).1 ≡ record (read h ctx) { error = e })
        × (read (with_error h ctx e).0 d
            ≡ (if shares ctx d then record (read h ctx) { error = e } else read h d))
  unfolding with_error modify
  read-with_error h ctx d e a = (
    read-modify (λ md. record md { error = e }) h ctx,
    read-modify_other (λ md. record md { error = e }) h ctx d a,
  )

  -- `MetaFromContext` answers a pointer to what the context shows.
  pub meta_read :
      (h : Heap) (ctx : Context (Value T))
      → (meta_from_context h ctx).0.mds (meta_from_context h ctx).1 ≡ read h ctx
  unfolding read
  meta_read h ctx = elim (meta_from_context_cases h ctx) [
    | inl (p, e, m) ↦ ground (arith, e, m)
    | inr (e, m) ↦ ground (arith, e, m)
  ]

  -- Typed metadata does not change what is read.
  pub read-typed :
      (h : Heap) (ctx : Context (Value T)) (t : T)
      → read h (message_with_context ctx t) ≡ read h ctx
  unfolding message_with_context read pointer_of value with_value key_eq str_eq
  read-typed h ctx t = refl

  pub read-message_from_recv :
      (unmarshal : Bytes → Option T) (h : Heap) (ctx : Context (Value T)) (msg : Message)
      → read h (message_from_recv unmarshal ctx msg) ≡ read h ctx
  unfolding message_from_recv
  read-message_from_recv unmarshal h ctx msg = elim (Option-cases msg.context) [
    | inl e ↦ rw (e, message_from_recv) refl
    | inr (raw, e) ↦ elim (Option-cases (unmarshal raw)) [
      | inl u ↦ rw (e, message_from_recv) (rw u refl)
      | inr (t, u) ↦ rw (e, message_from_recv) (rw u (read-typed h ctx t))
    ]
  ]

  pub read-from_recv_new :
      (h : Heap) (ctx : Context (Value T)) (msg : Message)
      → read (from_recv h ctx msg).0 (from_recv h ctx msg).1 ≡ filled (read h ctx) msg
  unfolding from_recv modify
  read-from_recv_new h ctx msg = read-modify (λ md. filled md msg) h ctx

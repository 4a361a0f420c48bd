-- ===== src/Broker/Store/Laws.antt =====
-- The broker store as a map, and its shutdown (broker/store.go).
use glider_client_go.Common.{
  Bool-cases, Option-cases, inl, inr, str_eq_refl, ◌≡◌, refl, ap, sym, ◌∙◌, str_eq_iff, List, [],
  ◌∷◌, map, none, some, arith, Bytes, str_eq, if◌then◌else◌, All,
}
use glider_client_go.Common.Maps.{lookup, insert, delete, lookup-insert, lookup-delete}
use glider_client_go.Broker.Info.{Broker}
use glider_client_go.Broker.Store.{Store, new, done_loop, done, get, set}

-- Each broker stands under its own ID.
abbrev pub IsKeyed : Store → Type 0
IsKeyed s = All (λ e. e.0 ≡ e.1.id) s.brokers

insert-All :
    (bk : Broker) (m : List (Bytes × Broker))
    → All (λ e. e.0 ≡ e.1.id) m
    → All (λ e. e.0 ≡ e.1.id) (insert bk.id bk m)
unfolding insert
insert-All bk [] h = (refl, tt)
insert-All bk ((k, b) ∷ m) h = ground (arith, insert-All bk m h.1)

pub new-IsKeyed : IsKeyed new
unfolding new
new-IsKeyed = tt

pub set-IsKeyed : (s : Store) (bk : Broker) → IsKeyed s → IsKeyed (set s bk)
unfolding set
set-IsKeyed s bk h = insert-All bk s.brokers h

-- `Get` after `Set`: the new broker under its ID, and the others as before.
pub get-set :
    (s : Store) (bk : Broker) (id : Bytes)
    → get (set s bk) id ≡ (if str_eq bk.id id then some bk else get s id)
unfolding get set
get-set s bk id = lookup-insert bk.id id bk s.brokers

pub done_loop-none :
    (k : Bytes) (rest m : List (Bytes × Broker))
    → lookup k m ≡ none
    → lookup k (done_loop rest m).0 ≡ none
unfolding done_loop
done_loop-none k [] m e = e
done_loop-none k ((j, bk) ∷ rest) m e =
    done_loop-none k rest (delete bk.id m) (ground (arith, lookup-delete bk.id k m))

-- The loop deletes every key that it comes by.
pub done_loop_deletes :
    (k : Bytes) (rest m : List (Bytes × Broker)) (b : Broker)
    → All (λ e. e.0 ≡ e.1.id) rest
    → lookup k rest ≡ some b
    → lookup k (done_loop rest m).0 ≡ none
unfolding done_loop lookup
done_loop_deletes k [] m b h e = cc
done_loop_deletes k ((j, bk) ∷ rest) m b h e = elim (Bool-cases (str_eq j k)) [
  | inl same ↦
      done_loop-none k rest (delete bk.id m) (rw (lookup-delete bk.id k m, ← h.0, same) refl)
  | inr differ ↦ done_loop_deletes k rest (delete bk.id m) b h.1 (rw differ at e)
]

pub nil_of_lookup : (m : List (Bytes × Broker)) → ((k : Bytes) → lookup k m ≡ none) → m ≡ []
unfolding lookup
nil_of_lookup [] h = refl
nil_of_lookup ((k, b) ∷ m) h = cc (rw str_eq_refl at (h k))

pub done_loop_cancels :
    (rest m : List (Bytes × Broker)) → (done_loop rest m).1 ≡ map (λ e. e.1) rest
unfolding done_loop
done_loop_cancels [] m = refl
done_loop_cancels ((k, bk) ∷ rest) m =
    ap (λ (l : List Broker). bk ∷ l) (done_loop_cancels rest (delete bk.id m))

-- `Done` cancels every broker of a keyed store, and leaves the store empty.
pub done_lem : (s : Store) → IsKeyed s → (done s ≡ (new, map (λ e. e.1) s.brokers))
unfolding done new
done_lem s h = rw (done_loop_cancels s.brokers s.brokers, empty) refl
  where
    gone : (k : Bytes) → lookup k (done_loop s.brokers s.brokers).0 ≡ none
    gone k = elim (Option-cases (lookup k s.brokers)) [
      | inl e ↦ done_loop-none k s.brokers s.brokers e
      | inr (b, e) ↦ done_loop_deletes k s.brokers s.brokers b h e
    ]

    empty : (done_loop s.brokers s.brokers).0 ≡ []
    empty = nil_of_lookup (done_loop s.brokers s.brokers).0 gone

lookup-All :
    (k : Bytes) (m : List (Bytes × Broker)) (b : Broker)
    → All (λ e. e.0 ≡ e.1.id) m
    → lookup k m ≡ some b
    → b.id ≡ k
unfolding lookup
lookup-All k [] b h e = cc
lookup-All k ((j, c) ∷ m) b h e = elim (Bool-cases (str_eq j k)) [
  | inl same ↦
      let found : c ≡ b = cc (rw same at e) in
      sym (ap (λ (x : Broker). x.id) found) ∙ (sym h.0 ∙ (str_eq_iff j k).0 same)
  | inr differ ↦ lookup-All k m b h.1 (rw differ at e)
]

-- What is found under an ID has this ID.
pub get-IsKeyed :
    (s : Store) (id : Bytes) (bk : Broker) → IsKeyed s → get s id ≡ some bk → bk.id ≡ id
unfolding get
get-IsKeyed s id bk h e = lookup-All id s.brokers bk h e

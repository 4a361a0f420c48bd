-- ===== src/Broker/Store/Order.antt =====
-- The order in which Go's `range` comes by the entries of a map, which is not specified, and the
-- shutdown of the store (broker/store.go).
use mathlib.Core.List.{Permᴰ}
use mathlib.Core.List.Permᴰ
use glider_client_go.Common.{
  ◌≡◌, inl, inr, refl, subst, Bool-cases, Option-cases, List, [], ◌∷◌, map, none, false, Bytes,
  str_eq, All,
}
use glider_client_go.Common.Maps.{lookup}
use glider_client_go.Broker.Info.{Broker}
use glider_client_go.Broker.Store.{Store, done_loop}
use glider_client_go.Broker.Store.Laws.{
  IsKeyed, done_loop-none, done_loop_deletes, nil_of_lookup, done_loop_cancels,
}

All-Permᴰ : {A : Type 0} (P : A → Type 0) {xs ys : List A} → Permᴰ xs ys → All P xs → All P ys
All-Permᴰ P Permᴰ.nil h = tt
All-Permᴰ P (Permᴰ.cons e p) h = (subst P e h.0, All-Permᴰ P p h.1)
All-Permᴰ P (Permᴰ.swap e f) h = (subst P f h.1.0, (subst P e h.0, h.1.1))
All-Permᴰ P (Permᴰ.trans p q) h = All-Permᴰ P q (All-Permᴰ P p h)

-- No entry has this key.
abbrev AreOther : Bytes → List (Bytes × Broker) → Type 0
AreOther k m = All (λ e. str_eq e.0 k ≡ false) m

lookup-none_to : (k : Bytes) (m : List (Bytes × Broker)) → lookup k m ≡ none → AreOther k m
unfolding lookup
lookup-none_to k [] e = tt
lookup-none_to k ((j, bk) ∷ m) e = elim (Bool-cases (str_eq j k)) [
  | inl same ↦ cc (rw same at e)
  | inr differ ↦ (differ, lookup-none_to k m (rw differ at e))
]

none_of_AreOther : (k : Bytes) (m : List (Bytes × Broker)) → AreOther k m → lookup k m ≡ none
unfolding lookup
none_of_AreOther k [] h = refl
none_of_AreOther k ((j, bk) ∷ m) h = rw h.0 (none_of_AreOther k m h.1)

lookup-Permᴰ :
    (k : Bytes) {visited m : List (Bytes × Broker)}
    → Permᴰ visited m
    → lookup k visited ≡ none
    → lookup k m ≡ none
lookup-Permᴰ k {visited} {m} p e = none_of_AreOther k m (All-Permᴰ _ p (lookup-none_to k visited e))

-- In whatever order the loop of `Done` comes by the entries of a keyed store: it leaves the store
-- empty, and the brokers that it cancels are those of the store, each entry once.
pub done_any_order :
    (s : Store) (visited : List (Bytes × Broker))
    → IsKeyed s
    → Permᴰ visited s.brokers
    → ((done_loop visited s.brokers).0 ≡ [])
      × Permᴰ (done_loop visited s.brokers).1 (map (λ e. e.1) s.brokers)
done_any_order s visited h p = (
  nil_of_lookup (done_loop visited s.brokers).0 gone,
  rw (done_loop_cancels visited s.brokers) (Permᴰ.map (λ e. e.1) p),
)
  where
    keyed : All (λ e. e.0 ≡ e.1.id) visited
    keyed = All-Permᴰ _ (Permᴰ.symm p) h

    gone : (k : Bytes) → lookup k (done_loop visited s.brokers).0 ≡ none
    gone k = elim (Option-cases (lookup k visited)) [
      | inl e ↦ done_loop-none k visited s.brokers (lookup-Permᴰ k p e)
      | inr (b, e) ↦ done_loop_deletes k visited s.brokers b keyed e
    ]

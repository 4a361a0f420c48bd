-- ===== src/Client/Locks/Exclusion.antt =====
-- Who holds a mutex (sync.RWMutex, as client/client.go, broker/store.go and broker/broker.go use it):
-- what stands between Lock and Unlock of one mutex is one step to all that take it.
use glider_client_go.Common.{
  ℕ, ◌≡◌, refl, sym, subst, true, false, List, [], ◌∷◌, arith, Bool-cases, inl, inr, All, ◌==◌,
}
use glider_client_go.Client.Locks.Circle.{move-cases}
use glider_client_go.Client.Locks.{
  Lock, lock_eq, Op, lock, rlock, unlock, Hold, Locks, allowed, drop_hold, put, perform, move,
  Moves, here, next,
}

-- A writer is the only holder.
abbrev pub IsExclusive : List Hold → Type 0
IsExclusive [] = Unit {0}
IsExclusive (h ∷ hs) = (h.writes ≡ true → hs ≡ []) × All (λ k. k.writes ≡ false) hs

readers : (hs : List Hold) → allowed false hs ≡ true → All (λ k. k.writes ≡ false) hs
unfolding allowed
readers [] e = tt
readers (h ∷ hs) e = (ground (arith, e), readers hs (ground (arith, e)))

nobody : (hs : List Hold) → allowed true hs ≡ true → hs ≡ []
unfolding allowed
nobody [] e = refl
nobody (h ∷ hs) e = cc (e)

drop_hold-All :
    (i : ℕ) (hs : List Hold)
    → All (λ k. k.writes ≡ false) hs
    → All (λ k. k.writes ≡ false) (drop_hold i hs)
unfolding drop_hold
drop_hold-All i [] a = tt
drop_hold-All i (h ∷ hs) a = elim (Bool-cases (h.owner == i)) [
  | inl e ↦ rw e a.1
  | inr e ↦ rw e (a.0, drop_hold-All i hs a.1)
]

readers-IsExclusive : (hs : List Hold) → All (λ k. k.writes ≡ false) hs → IsExclusive hs
readers-IsExclusive [] a = tt
readers-IsExclusive (h ∷ hs) a = (λ w. cc (w, a.0), a.1)

drop_hold-IsExclusive : (i : ℕ) (hs : List Hold) → IsExclusive hs → IsExclusive (drop_hold i hs)
unfolding drop_hold
drop_hold-IsExclusive i [] x = tt
drop_hold-IsExclusive i (h ∷ hs) x = elim (Bool-cases (h.owner == i)) [
  | inl e ↦ rw e (readers-IsExclusive hs x.1)
  | inr e ↦ rw e (λ w. rw (x.0 w) refl, drop_hold-All i hs x.1)
]

-- Every mutex of a state.
abbrev pub AreExclusive : Locks → Type 0
AreExclusive s = (m : Lock) → IsExclusive (s.holds m)

put-AreExclusive :
    (s : Locks) (i : ℕ) (rest : List Op) (m : Lock) (hs : List Hold)
    → AreExclusive s
    → IsExclusive hs
    → AreExclusive (put s i rest m hs)
put-AreExclusive s i rest m hs x new n = elim (Bool-cases (lock_eq n m)) [
  | inl e ↦ rw e new
  | inr e ↦ rw e (x n)
]

perform-AreExclusive :
    (s : Locks) (i : ℕ) (op : Op) (rest : List Op)
    → AreExclusive s
    → AreExclusive (perform s i op rest)
unfolding perform
perform-AreExclusive s i (lock m) rest x = elim (Bool-cases (allowed true (s.holds m))) [
  | inl e ↦
      rw (e, perform)
        (put-AreExclusive s i rest m _ x (λ w. nobody (s.holds m) e, rw (nobody (s.holds m) e) tt))
  | inr e ↦ rw (e, perform) x
]
perform-AreExclusive s i (rlock m) rest x = elim (Bool-cases (allowed false (s.holds m))) [
  | inl e ↦ rw (e, perform) (put-AreExclusive s i rest m _ x (λ w. cc (w), readers (s.holds m) e))
  | inr e ↦ rw (e, perform) x
]
perform-AreExclusive s i (unlock m) rest x =
    put-AreExclusive s i rest m (drop_hold i (s.holds m)) x
      (drop_hold-IsExclusive i (s.holds m) (x m))

move-AreExclusive : (s : Locks) (i : ℕ) → AreExclusive s → AreExclusive (move i s)
move-AreExclusive s i x = elim (move-cases i s (s.scripts i) refl) [
  | inl e ↦ subst AreExclusive (sym e) x
  | inr (op, rest, e) ↦ subst AreExclusive (sym e) (perform-AreExclusive s i op rest x)
]

pub Moves-AreExclusive : {s t : Locks} → Moves s t → AreExclusive s → AreExclusive t
Moves-AreExclusive here x = x
Moves-AreExclusive (next {t} g i) x = move-AreExclusive t i (Moves-AreExclusive g x)

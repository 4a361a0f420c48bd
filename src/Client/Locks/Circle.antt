-- ===== src/Client/Locks/Circle.antt =====
-- Two goroutines that each wait for a mutex that the other holds, and what others can do then
-- (client/client.go, broker/broker.go, broker/store.go).
use glider_client_go.Common.{
  ℕ, ◌≡◌, ◌≢◌, ◌⊎◌, inl, inr, refl, ◌∙◌, Bool, true, false, ◌&&◌, ◌||◌, List, [], ◌∷◌, arith, ◌==◌,
  ==_iff, ◌↔◌, str_eq_iff, Bool-cases,
}
use glider_client_go.Client.Locks.{
  Lock, broker_rw, store_rw, client_rw, lock_eq, Op, lock, rlock, unlock, Hold, Locks, allowed,
  drop_hold, put, perform, move, Moves, here, next,
}

-- The goroutine `i` holds a mutex for writing.
unfoldable pub writer : ℕ → List Hold → Bool
writer i [] = false
writer i (h ∷ hs) = (h.owner == i && h.writes) || writer i hs

writer-allowed : (i : ℕ) (w : Bool) (hs : List Hold) → writer i hs ≡ true → allowed w hs ≡ false
unfolding writer allowed
writer-allowed i w [] h = cc
writer-allowed i w (x ∷ hs) h = ground (arith, writer-allowed i w hs, h)

writer-drop_hold :
    (i k : ℕ) (hs : List Hold) → k ≢ i → writer i hs ≡ true → writer i (drop_hold k hs) ≡ true
unfolding writer drop_hold
writer-drop_hold i k [] n h = h
writer-drop_hold i k (x ∷ hs) n h = ground (arith, writer-drop_hold i k hs n, h, n)

-- An operation that takes a mutex.
abbrev pub Takes : Lock → Op → Type 0
Takes m (lock n) = n ≡ m
Takes m (rlock n) = n ≡ m
Takes m (unlock n) = ⊥

-- Goroutine `i` holds `m` for writing, and its next operation takes `n`.
pub record IsWaiting (s : Locks) (i : ℕ) (m n : Lock) (op : Op) (rest : List Op) : Type 0 where
  pub holds : writer i (s.holds m) ≡ true
  pub script : s.scripts i ≡ op ∷ rest
  pub takes : Takes n op

perform-refused :
    (s : Locks) (i k : ℕ) (n : Lock) (op : Op) (rest : List Op)
    → writer k (s.holds n) ≡ true
    → Takes n op
    → perform s i op rest ≡ s
unfolding perform
perform-refused s i k n (lock m) rest w e = rw (e, writer-allowed k true (s.holds n) w) refl
perform-refused s i k n (rlock m) rest w e = rw (e, writer-allowed k false (s.holds n) w) refl
perform-refused s i k n (unlock m) rest w e = absurd e

pub lock_eq_iff : (a b : Lock) → (lock_eq a b ≡ true) ↔ (a ≡ b)
unfolding lock_eq
lock_eq_iff (broker_rw a) (broker_rw b) = ground (arith, str_eq_iff a b)
lock_eq_iff (broker_rw a) store_rw = ground arith
lock_eq_iff (broker_rw a) client_rw = ground arith
lock_eq_iff store_rw (broker_rw b) = ground arith
lock_eq_iff store_rw store_rw = ground arith
lock_eq_iff store_rw client_rw = ground arith
lock_eq_iff client_rw (broker_rw b) = ground arith
lock_eq_iff client_rw store_rw = ground arith
lock_eq_iff client_rw client_rw = ground arith

-- Another goroutine takes nothing from `i`.
abbrev Keeps : ℕ → Lock → Locks → Locks → Type 0
Keeps i m s t = (writer i (t.holds m) ≡ true) × (t.scripts i ≡ s.scripts i)

put-others :
    (s : Locks) (i k : ℕ) (m n : Lock) (rest : List Op) (hs : List Hold)
    → k ≢ i
    → writer i (s.holds m) ≡ true
    → (writer i (s.holds n) ≡ true → writer i hs ≡ true)
    → Keeps i m s (put s k rest n hs)
put-others s i k m n rest hs d w keep = elim (Bool-cases (lock_eq m n)) [
  | inl e ↦ (rw e (keep (rw ((lock_eq_iff m n).0 e) at w)), ground (arith, d))
  | inr e ↦ (rw e w, ground (arith, d))
]

perform-others :
    (s : Locks) (i k : ℕ) (m : Lock) (op : Op) (rest : List Op)
    → k ≢ i
    → writer i (s.holds m) ≡ true
    → Keeps i m s (perform s k op rest)
unfolding perform writer
perform-others s i k m (lock n) rest d w = elim (Bool-cases (allowed true (s.holds n))) [
  | inl e ↦ rw e (put-others s i k m n rest _ d w (λ h. ground (arith, h)))
  | inr e ↦ rw e (w, refl)
]
perform-others s i k m (rlock n) rest d w = elim (Bool-cases (allowed false (s.holds n))) [
  | inl e ↦ rw e (put-others s i k m n rest _ d w (λ h. ground (arith, h)))
  | inr e ↦ rw e (w, refl)
]
perform-others s i k m (unlock n) rest d w =
    put-others s i k m n rest _ d w (writer-drop_hold i k (s.holds n) d)

-- Two goroutines, each of which waits for a mutex that the other holds.
pub record IsCircle (s : Locks) (i j : ℕ) (m n : Lock) (p q : Op) (r r' : List Op) : Type 0 where
  pub first : IsWaiting s i m n p r
  pub second : IsWaiting s j n m q r'

pub move-cases :
    (k : ℕ) (s : Locks) (l : List Op)
    → s.scripts k ≡ l
    → (move k s ≡ s) ⊎ ((op : Op) × (rest : List Op) × (move k s ≡ perform s k op rest))
unfolding move
move-cases k s [] e = inl (rw (e, move) refl)
move-cases k s (op ∷ rest) e = inr (op, rest, rw (e, move) refl)

move-refused :
    (s : Locks) (i j : ℕ) (m n : Lock) (p q : Op) (r r' : List Op)
    → IsCircle s i j m n p q r r'
    → (move i s ≡ s) × (move j s ≡ s)
unfolding move
move-refused s i j m n p q r r' c = (
  rw (c.first.script, move) (perform-refused s i j n p r c.second.holds c.first.takes),
  rw (c.second.script, move) (perform-refused s j i m q r' c.first.holds c.second.takes),
)

IsWaiting-Keeps :
    (s t : Locks) (i : ℕ) (m n : Lock) (op : Op) (rest : List Op)
    → IsWaiting s i m n op rest
    → Keeps i m s t
    → IsWaiting t i m n op rest
IsWaiting-Keeps s t i m n op rest h (w, same) = record {
  holds = w;
  script = same ∙ h.script;
  takes = h.takes;
}

move-IsCircle :
    (s : Locks) (k i j : ℕ) (m n : Lock) (p q : Op) (r r' : List Op)
    → IsCircle s i j m n p q r r'
    → IsCircle (move k s) i j m n p q r r'
move-IsCircle s k i j m n p q r r' c =
    let (i_refused, j_refused) = move-refused s i j m n p q r r' c in
    elim (Bool-cases (k == i)) [
      | inl e ↦ rw ((==_iff k i).0 e, i_refused) c
      | inr k_i ↦ elim (Bool-cases (k == j)) [
        | inl e ↦ rw ((==_iff k j).0 e, j_refused) c
        | inr k_j ↦ elim (move-cases k s (s.scripts k) refl) [
          | inl e ↦ rw e c
          | inr (op, rest, e) ↦ rw e record {
            first =
                IsWaiting-Keeps s _ i m n p r c.first
                  (perform-others s i k m op rest (λ h. ground (arith, h, k_i)) c.first.holds);
            second =
                IsWaiting-Keeps s _ j n m q r' c.second
                  (perform-others s j k n op rest (λ h. ground (arith, h, k_j)) c.second.holds);
          }
        ]
      ]
    ]

pub Moves-IsCircle :
    {s t : Locks} (i j : ℕ) (m n : Lock) (p q : Op) (r r' : List Op)
    → Moves s t
    → IsCircle s i j m n p q r r'
    → IsCircle t i j m n p q r r'
Moves-IsCircle i j m n p q r r' here c = c
Moves-IsCircle i j m n p q r r' (next {t} v k) c =
    move-IsCircle t k i j m n p q r r' (Moves-IsCircle i j m n p q r r' v c)

-- ===== src/Client/Locks/Sections.antt =====
-- The critical sections of client/client.go, broker/store.go and broker/broker.go: what stands between
-- the lock and the unlock of a mutex.
use glider_client_go.Common.{
  ap, ℕ, ◌≡◌, ◌≢◌, refl, sym, ◌∙◌, subst, Bool, true, false, not, ◌&&◌, ◌||◌, List, [], ◌∷◌, arith,
  Bool-cases, inl, inr, All, ◌==◌, ==_iff, if◌then◌else◌,
}
use glider_client_go.Client.Locks.{
  Lock, lock_eq, Op, lock, rlock, unlock, Hold, Locks, allowed, drop_hold, put, perform, move,
  Moves, here, next,
}
use glider_client_go.Client.Locks.Circle.{lock_eq_iff}
use glider_client_go.Client.Locks.Exclusion.{IsExclusive}

-- The next operation on `m` is an unlock.
unfoldable pub critical : Lock → List Op → Bool
critical m [] = false
critical m (lock n ∷ rest) = if lock_eq n m then false else critical m rest
critical m (rlock n ∷ rest) = if lock_eq n m then false else critical m rest
critical m (unlock n ∷ rest) = if lock_eq n m then true else critical m rest

-- Each lock is followed by its unlock, and each unlock by no other.
abbrev pub IsBalanced : List Op → Type 0
IsBalanced [] = Unit {0}
IsBalanced (lock n ∷ rest) = (critical n rest ≡ true) × IsBalanced rest
IsBalanced (rlock n ∷ rest) = (critical n rest ≡ true) × IsBalanced rest
IsBalanced (unlock n ∷ rest) = (critical n rest ≡ false) × IsBalanced rest

-- No goroutine reads under `m`: it is locked for writing alone.
unfoldable pub writes_only : Lock → List Op → Bool
writes_only m [] = true
writes_only m (lock n ∷ rest) = writes_only m rest
writes_only m (rlock n ∷ rest) = not (lock_eq n m) && writes_only m rest
writes_only m (unlock n ∷ rest) = writes_only m rest

unfoldable pub owns : ℕ → List Hold → Bool
owns i [] = false
owns i (h ∷ hs) = h.owner == i || owns i hs

owns-drop_hold :
    (i j : ℕ) (hs : List Hold) → j ≢ i → owns j hs ≡ true → owns j (drop_hold i hs) ≡ true
unfolding owns drop_hold
owns-drop_hold i j [] n o = o
owns-drop_hold i j (h ∷ hs) n o = ground (arith, owns-drop_hold i j hs n, o, n)

-- What a goroutine is inside of, it holds; and its script is balanced.
pub record IsHeld (s : Locks) : Type 0 where
  pub balanced : (i : ℕ) → IsBalanced (s.scripts i)
  pub held : (i : ℕ) (m : Lock) → critical m (s.scripts i) ≡ true → owns i (s.holds m) ≡ true

lock_eq_sym : (m n : Lock) → lock_eq m n ≡ false → lock_eq n m ≡ false
lock_eq_sym m n e = elim (Bool-cases (lock_eq n m)) [
  | inl same ↦ cc (e, (lock_eq_iff m n).1 (sym ((lock_eq_iff n m).0 same)))
  | inr differ ↦ differ
]

put-IsHeld :
    (s : Locks) (i : ℕ) (rest : List Op) (n : Lock) (hs : List Hold)
    → IsHeld s
    → IsBalanced rest
    → (critical n rest ≡ true → owns i hs ≡ true)
    → ((m : Lock) → lock_eq n m ≡ false → critical m rest ≡ true → owns i (s.holds m) ≡ true)
    → ((j : ℕ) → j ≢ i → owns j (s.holds n) ≡ true → owns j hs ≡ true)
    → IsHeld (put s i rest n hs)
put-IsHeld s i rest n hs h b here_n here_m there = record {
  balanced = λ j. elim (Bool-cases (j == i)) [ inl e ↦ rw e b | inr e ↦ rw e (h.balanced j) ];
  held = λ j m c. elim (Bool-cases (j == i)) [
    | inl e ↦ elim (Bool-cases (lock_eq m n)) [
      | inl q ↦ rw ((==_iff j i).0 e, q) (here_n (rw (e, (lock_eq_iff m n).0 q) at c))
      | inr q ↦ rw ((==_iff j i).0 e, q) (here_m m (lock_eq_sym m n q) (rw e at c))
    ]
    | inr e ↦ elim (Bool-cases (lock_eq m n)) [
      | inl q ↦ rw q (
          there j (λ k. ground (arith, e, k))
            (subst (λ (l : Lock). owns j (s.holds l) ≡ true) ((lock_eq_iff m n).0 q)
              (h.held j m (rw e at c))))
      | inr q ↦ rw q (h.held j m (rw e at c))
    ]
  ];
}

-- The next operation is on `m`; what it leaves for other mutexes is there before it.
critical-other :
    (s : Locks) (i : ℕ) (op : Op) (rest : List Op) (n : Lock)
    → s.scripts i ≡ op ∷ rest
    → IsHeld s
    → critical n (op ∷ rest) ≡ true
    → owns i (s.holds n) ≡ true
critical-other s i op rest n e h c = h.held i n (rw e c)

take-IsHeld :
    (s : Locks) (i : ℕ) (m : Lock) (op : Op) (rest : List Op) (writes : Bool)
    → s.scripts i ≡ op ∷ rest
    → IsBalanced rest
    → ((n : Lock) → lock_eq m n ≡ false → critical n (op ∷ rest) ≡ critical n rest)
    → IsHeld s
    → IsHeld (put s i rest m (record { owner = i; writes = writes } ∷ s.holds m))
unfolding owns
take-IsHeld s i m op rest writes e b other h =
    put-IsHeld s i rest m _ h b (λ c. rw ((==_iff i i).1 refl) refl)
      (λ n d c. critical-other s i op rest n e h (other n d ∙ c)) (λ j d o. ground (arith, o))

perform-IsHeld :
    (s : Locks) (i : ℕ) (op : Op) (rest : List Op)
    → s.scripts i ≡ op ∷ rest
    → IsHeld s
    → IsHeld (perform s i op rest)
unfolding perform critical
perform-IsHeld s i (lock m) rest e h =
    let b : IsBalanced (lock m ∷ rest) = subst IsBalanced e (h.balanced i) in
    elim (Bool-cases (allowed true (s.holds m))) [
      | inl a ↦ rw (a, perform) (take-IsHeld s i m (lock m) rest true e b.1 (λ n d. rw d refl) h)
      | inr a ↦ rw (a, perform) h
    ]
perform-IsHeld s i (rlock m) rest e h =
    let b : IsBalanced (rlock m ∷ rest) = subst IsBalanced e (h.balanced i) in
    elim (Bool-cases (allowed false (s.holds m))) [
      | inl a ↦ rw (a, perform) (take-IsHeld s i m (rlock m) rest false e b.1 (λ n d. rw d refl) h)
      | inr a ↦ rw (a, perform) h
    ]
perform-IsHeld s i (unlock m) rest e h =
    let b : IsBalanced (unlock m ∷ rest) = subst IsBalanced e (h.balanced i) in
    put-IsHeld s i rest m (drop_hold i (s.holds m)) h b.1 (λ c. cc (c, b.0))
      (λ n d c. critical-other s i (unlock m) rest n e h (rw d c))
      (λ j d o. owns-drop_hold i j (s.holds m) d o)

drop_hold-writers :
    (i : ℕ) (hs : List Hold)
    → All (λ h. h.writes ≡ true) hs
    → All (λ h. h.writes ≡ true) (drop_hold i hs)
unfolding drop_hold
drop_hold-writers i [] a = tt
drop_hold-writers i (h ∷ hs) a = elim (Bool-cases (h.owner == i)) [
  | inl e ↦ rw e a.1
  | inr e ↦ rw e (a.0, drop_hold-writers i hs a.1)
]

-- Under `m` goroutines write only, and its holders do.
pub record IsWriting (m : Lock) (s : Locks) : Type 0 where
  pub scripts : (k : ℕ) → writes_only m (s.scripts k) ≡ true
  pub holders : All (λ h. h.writes ≡ true) (s.holds m)

put-IsWriting :
    (s : Locks) (i : ℕ) (rest : List Op) (m n : Lock) (hs : List Hold)
    → IsWriting m s
    → writes_only m rest ≡ true
    → (m ≡ n → All (λ h. h.writes ≡ true) hs)
    → IsWriting m (put s i rest n hs)
put-IsWriting s i rest m n hs h w a = record {
  scripts = λ j. elim (Bool-cases (j == i)) [ inl e ↦ rw e w | inr e ↦ rw e (h.scripts j) ];
  holders = elim (Bool-cases (lock_eq m n)) [
    | inl e ↦ rw e (a ((lock_eq_iff m n).0 e))
    | inr e ↦ rw e h.holders
  ];
}

perform-IsWriting :
    (s : Locks) (i : ℕ) (m : Lock) (op : Op) (rest : List Op)
    → s.scripts i ≡ op ∷ rest
    → IsWriting m s
    → IsWriting m (perform s i op rest)
unfolding perform writes_only
perform-IsWriting s i m (lock n) rest e h =
    let w : writes_only m (lock n ∷ rest) ≡ true = ap (writes_only m) (sym e) ∙ h.scripts i in
    elim (Bool-cases (allowed true (s.holds n))) [
      | inl a ↦ rw (a, perform) (put-IsWriting s i rest m n _ h w (λ q. (refl, rw q at h.holders)))
      | inr a ↦ rw (a, perform) h
    ]
perform-IsWriting s i m (rlock n) rest e h =
    let w : writes_only m (rlock n ∷ rest) ≡ true = ap (writes_only m) (sym e) ∙ h.scripts i in
    elim (Bool-cases (allowed false (s.holds n))) [
      | inl a ↦
          rw (a, perform)
            (put-IsWriting s i rest m n _ h (ground (arith, w))
              (λ q. absurd (ground (arith, w, (lock_eq_iff n m).1 (sym q)))))
      | inr a ↦ rw (a, perform) h
    ]
perform-IsWriting s i m (unlock n) rest e h =
    let w : writes_only m (unlock n ∷ rest) ≡ true = ap (writes_only m) (sym e) ∙ h.scripts i in
    put-IsWriting s i rest m n _ h w (λ q. drop_hold-writers i (s.holds n) (rw q at h.holders))

move-parts :
    (P : Locks → Type 0) (s : Locks) (i : ℕ)
    → ((op : Op) (rest : List Op) → s.scripts i ≡ op ∷ rest → P (perform s i op rest))
    → P s
    → P (move i s)
unfolding move
move-parts P s i f p = go (s.scripts i) refl
  where
    go : (l : List Op) → s.scripts i ≡ l → P (move i s)
    go [] e = rw (e, move) p
    go (op ∷ rest) e = rw (e, move) (f op rest e)

pub Moves-IsHeld : {s t : Locks} → Moves s t → IsHeld s → IsHeld t
Moves-IsHeld here h = h
Moves-IsHeld (next {t} g i) h =
    let before = Moves-IsHeld g h in
    move-parts IsHeld t i (λ op rest e. perform-IsHeld t i op rest e before) before

pub Moves-IsWriting : {s t : Locks} (m : Lock) → Moves s t → IsWriting m s → IsWriting m t
Moves-IsWriting m here h = h
Moves-IsWriting m (next {t} g i) h =
    let before = Moves-IsWriting m g h in
    move-parts (IsWriting m) t i (λ op rest e. perform-IsWriting t i m op rest e before) before

owner_of : (i : ℕ) (h : Hold) → owns i (h ∷ []) ≡ true → h.owner ≡ i
unfolding owns
owner_of i h o = (==_iff h.owner i).0 (ground (arith, o))

nobody_owns : (i : ℕ) → owns i [] ≡ true → ⊥
unfolding owns
nobody_owns i p = cc (p)

pub one_owner :
    (i j : ℕ) (hs : List Hold)
    → IsExclusive hs
    → All (λ h. h.writes ≡ true) hs
    → owns i hs ≡ true
    → owns j hs ≡ true
    → i ≡ j
one_owner i j [] x a p q = absurd (nobody_owns i p)
one_owner i j (h ∷ hs) x a p q =
    let alone : (k : ℕ) → owns k (h ∷ hs) ≡ true → h.owner ≡ k =
      λ k o. owner_of k h (subst (λ (l : List Hold). owns k (h ∷ l) ≡ true) (x.0 a.0) o) in
    sym (alone i p) ∙ alone j q

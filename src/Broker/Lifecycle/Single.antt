-- ===== src/Broker/Lifecycle/Single.antt =====
-- The goroutine of a broker that dials, reads or waits (broker/broker.go, Start and restart).
use glider_client_go.Common.{
  subst, ap, ℕ, ◌+◌, ◌≡◌, ◌≢◌, inl, inr, refl, sym, ◌∙◌, Bool, true, false, ◌==◌, ==_iff,
  Bool-cases, arith,
}
use glider_client_go.Broker.Connection.{
  Connection, Code, done_broker, begin_start, shutdown, handle_error, restart,
}
use glider_client_go.Broker.Lifecycle.{
  Phase, Role, main, reader, Lifecycle, unused, phase_of, set_phase, planned, finishing, call_start,
  channel_failed, recv_failed, Step, Steps,
}
use glider_client_go.Broker.Lifecycle.Simulation.{on_message-parts, set_phase-conn}
use glider_client_go.Broker.Lifecycle.Contexts.{handle_error-contexts}

-- A goroutine that dials, reads, or waits to start again.
abbrev pub is_worker : Role → Phase → Bool
is_worker main Phase.active = false
is_worker reader Phase.active = true
is_worker _ Phase.opening = true
is_worker _ (Phase.waiting j) = true
is_worker _ Phase.unborn = false
is_worker _ Phase.closing = false
is_worker _ Phase.over = false
is_worker _ (Phase.nested k) = false

abbrev pub IsWorking : Lifecycle → Role → ℕ → Type 0
IsWorking s r i = is_worker r (phase_of s r i) ≡ true

-- Only the latest `Start` has one, and it is its main goroutine or its reader.
pub record IsSingle (s : Lifecycle) : Type 0 where
  pub latest : (r : Role) (i : ℕ) → IsWorking s r i → (i ≡ s.conn.starts) × (i ≢ 0)
  pub one : IsWorking s main s.conn.starts → IsWorking s reader s.conn.starts → ⊥

fewer :
    (s t : Lifecycle)
    → t.conn.starts ≡ s.conn.starts
    → ((r : Role) (i : ℕ) → IsWorking t r i → IsWorking s r i)
    → IsSingle s
    → IsSingle t
fewer s t e f h = record {
  latest = λ r i w. let (n, z) = h.latest r i (f r i w) in (n ∙ sym e, z);
  one = λ m r. h.one (rw e at (f main _ m)) (rw e at (f reader _ r));
}

-- A phase that works only where there was one that works.
pub set_phase-IsWorking :
    (s : Lifecycle) (q : Role) (i : ℕ) (p : Phase)
    → (is_worker q p ≡ true → IsWorking s q i)
    → (r : Role) (j : ℕ) → IsWorking (set_phase s q i p) r j
    → IsWorking s r j
set_phase-IsWorking s main i p f main j w = elim (Bool-cases (j == i)) [
  | inl e ↦ subst (IsWorking s main) (sym ((==_iff j i).0 e)) (f (rw e at w))
  | inr e ↦ rw e at w
]
set_phase-IsWorking s main i p f reader j w = w
set_phase-IsWorking s reader i p f main j w = w
set_phase-IsWorking s reader i p f reader j w = elim (Bool-cases (j == i)) [
  | inl e ↦ subst (IsWorking s reader) (sym ((==_iff j i).0 e)) (f (rw e at w))
  | inr e ↦ rw e at w
]

pub finishing-idle : (r : Role) → is_worker r (finishing r) ≡ false
finishing-idle main = refl
finishing-idle reader = refl

-- Nothing works.
abbrev pub IsIdle : Lifecycle → Type 0
IsIdle s = (r : Role) (i : ℕ) → IsWorking s r i → ⊥

unique :
    (s : Lifecycle) (r q : Role) (i j : ℕ)
    → IsSingle s
    → IsWorking s r i
    → IsWorking s q j
    → (q ≡ r) × (j ≡ i)
unique s main main i j h w v = (refl, (h.latest main j v).0 ∙ sym (h.latest main i w).0)
unique s reader reader i j h w v = (refl, (h.latest reader j v).0 ∙ sym (h.latest reader i w).0)
unique s main reader i j h w v =
    absurd (h.one (rw (h.latest main i w).0 at w) (rw (h.latest reader j v).0 at v))
unique s reader main i j h w v =
    absurd (h.one (rw (h.latest main j v).0 at v) (rw (h.latest reader i w).0 at w))

set_phase-phase_of :
    (s : Lifecycle) (r : Role) (i : ℕ) (p : Phase) → phase_of (set_phase s r i p) r i ≡ p
set_phase-phase_of s main i p = rw ((==_iff i i).1 refl) refl
set_phase-phase_of s reader i p = rw ((==_iff i i).1 refl) refl

-- The goroutine that works stops to.
pub leaves-IsIdle :
    (s : Lifecycle) (r : Role) (i : ℕ) (p : Phase)
    → IsSingle s
    → IsWorking s r i
    → is_worker r p ≡ false
    → IsIdle (set_phase s r i p)
leaves-IsIdle s r i p h w idle q j v =
    let before = set_phase-IsWorking s r i p (λ _. w) q j v in
    let (role, number) = unique s r q i j h w before in
    cc (rw (role, number, set_phase-phase_of s r i p) at v, idle)

-- `Start` is called while nothing works.
starts-IsSingle : (s : Lifecycle) → IsIdle s → IsSingle (call_start s)
unfolding call_start begin_start done_broker
starts-IsSingle s idle = record {
  latest = latest;
  one = λ m r. idle reader (s.conn.starts + 1) (ground (arith, r));
}
  where
    latest :
        (r : Role) (i : ℕ)
        → IsWorking (call_start s) r i
        → (i ≡ (call_start s).conn.starts) × (i ≢ 0)
    latest reader i w = absurd (idle reader i w)
    latest main i w = elim (Bool-cases (i == s.conn.starts + 1)) [
      | inl e ↦
          let n : i ≡ s.conn.starts + 1 = (==_iff i (s.conn.starts + 1)).0 e in
          (ground (arith, n), λ z. omega (arith, n, z))
      | inr e ↦ absurd (idle main i (rw e at w))
    ]

-- The reader of the latest `Start` begins to read while nothing works.
reads-IsSingle :
    (s : Lifecycle) (i : ℕ)
    → IsIdle s
    → i ≡ s.conn.starts
    → i ≢ 0
    → IsSingle (set_phase s reader i Phase.active)
reads-IsSingle s i idle e z = record { latest = latest; one = λ m r. idle main s.conn.starts m }
  where
    latest :
        (r : Role) (j : ℕ)
        → IsWorking (set_phase s reader i Phase.active) r j
        → (j ≡ s.conn.starts) × (j ≢ 0)
    latest main j w = absurd (idle main j w)
    latest reader j w = elim (Bool-cases (j == i)) [
      | inl q ↦ let n : j ≡ i = (==_iff j i).0 q in (n ∙ e, λ k. z (sym n ∙ k))
      | inr q ↦ absurd (idle reader j (rw q at w))
    ]

pub waiting_works :
    (s : Lifecycle) (r : Role) (i j : ℕ) → phase_of s r i ≡ Phase.waiting j → IsWorking s r i
waiting_works s main i j e = rw e refl
waiting_works s reader i j e = rw e refl

Step-IsSingle : {s t : Lifecycle} → Step s t → IsSingle s → IsSingle t
unfolding channel_failed recv_failed shutdown
Step-IsSingle {s} (Step.first_start e) h =
    starts-IsSingle s (λ r i w. let (n, z) = h.latest r i w in z (n ∙ e))
Step-IsSingle {s} (Step.dial_fails i e) h =
    fewer s _ refl (set_phase-IsWorking s main i Phase.over (λ w. cc)) h
Step-IsSingle {s} (Step.channel_fails i answer e) h =
    fewer s (channel_failed i answer s)
      (unfold handle_error in (handle_error-contexts Code.unavailable answer s.conn).0)
      (set_phase-IsWorking s main i (planned main s.conn.starts (restart answer s.conn).1)
        (λ _. rw e refl))
      h
Step-IsSingle {s} (Step.opens i e) h =
    let works : IsWorking s main i = rw e refl in
    let (latest, made) = h.latest main i works in
    reads-IsSingle (set_phase s main i Phase.active) i
      (leaves-IsIdle s main i Phase.active h works refl) latest made
Step-IsSingle {s} (Step.receives i msg conn e q) h =
    fewer s _ (on_message-parts i msg s.conn conn q).0 (λ r j w. w) h
Step-IsSingle {s} (Step.fails i code answer e) h =
    fewer s (recv_failed i code answer s) (handle_error-contexts code answer s.conn).0
      (set_phase-IsWorking s reader i
        (planned reader s.conn.starts (handle_error code answer s.conn).1) (λ _. rw e refl))
      h
Step-IsSingle {s} (Step.starts_again r i j e) h =
    starts-IsSingle _ (leaves-IsIdle s r i _ h (waiting_works s r i j e) refl)
Step-IsSingle {s} (Step.returns r i k e q) h =
    fewer s _ (ap (λ (c : Connection). c.starts) (set_phase-conn s r i _))
      (set_phase-IsWorking s r i _ (λ w. absurd (cc (w, finishing-idle r)))) h
Step-IsSingle {s} (Step.stops r i j e q) h =
    fewer s _ (ap (λ (c : Connection). c.starts) (set_phase-conn s r i _))
      (set_phase-IsWorking s r i _ (λ w. absurd (cc (w, finishing-idle r)))) h
Step-IsSingle {s} (Step.closes i e) h =
    fewer s _ refl (set_phase-IsWorking s reader i Phase.over (λ w. cc)) h
Step-IsSingle {s} (Step.ends i e q) h =
    fewer s _ refl (set_phase-IsWorking s main i Phase.over (λ w. cc)) h
Step-IsSingle {s} Step.cancels h = fewer s _ (unfold done_broker in ground arith) (λ r j w. w) h

unused-IsIdle : IsIdle unused
unused-IsIdle main i w = cc (w)
unused-IsIdle reader i w = cc (w)

pub Steps-IsSingle : {t : Lifecycle} → Steps unused t → IsSingle t
Steps-IsSingle Steps.none_yet = record {
  latest = λ r i w. absurd (unused-IsIdle r i w);
  one = λ m r. unused-IsIdle main 0 m;
}
Steps-IsSingle (Steps.then_step g st) = Step-IsSingle st (Steps-IsSingle g)

-- What works is the latest `Start`, and there is one.
pub started :
    {s : Lifecycle} (r : Role) (i : ℕ) → Steps unused s → IsWorking s r i → s.conn.starts ≢ 0
started r i g w z = let (n, made) = (Steps-IsSingle g).latest r i w in made (n ∙ z)

-- Whatever the goroutines of a broker do, at most one of them dials, reads, or waits to start again:
-- two that do have the same role and the same number, which is that of the latest `Start`.
pub one_worker :
    {s : Lifecycle} (r q : Role) (i j : ℕ)
    → Steps unused s
    → IsWorking s r i
    → IsWorking s q j
    → (q ≡ r) × (j ≡ i) × (i ≡ s.conn.starts)
one_worker {s} r q i j g w v =
    let h = Steps-IsSingle g in
    let (role, number) = unique s r q i j h w v in (role, number, (h.latest r i w).0)

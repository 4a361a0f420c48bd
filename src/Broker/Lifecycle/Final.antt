-- ===== src/Broker/Lifecycle/Final.antt =====
-- When a broker does not come back (broker/broker.go, Start, handleError and restart).
use glider_client_go.Common.{ℕ, ◌≡◌, ◌≢◌, refl, sym, ◌∙◌, ap, Bool, true, false, arith}
use glider_client_go.Broker.Connection.{
  Connection, Code, done_broker, shutdown, handle_error, restart,
}
use glider_client_go.Broker.Connection.Safety.{handle_error-parts}
use glider_client_go.Broker.Lifecycle.{
  Phase, Role, main, reader, Lifecycle, unused, set_phase, planned, finishing, channel_failed,
  recv_failed, Step, Steps,
}
use glider_client_go.Broker.Lifecycle.Simulation.{set_phase-conn}
use glider_client_go.Broker.Lifecycle.Contexts.{handle_error-contexts}
use glider_client_go.Broker.Lifecycle.Single.{
  is_worker, IsIdle, set_phase-IsWorking, finishing-idle, waiting_works, leaves-IsIdle,
  Steps-IsSingle, started,
}

-- No goroutine works any more, and what is left of the connection may come to its end.
record IsLeft (s t : Lifecycle) : Type 0 where
  starts : t.conn.starts ≡ s.conn.starts
  idle : IsIdle t
  connected : t.conn.connected ≡ true → s.conn.connected ≡ true

-- A goroutine goes on to a phase that does not work.
left :
    (s : Lifecycle) (r : Role) (i : ℕ) (p : Phase)
    → is_worker r p ≡ false
    → IsIdle s
    → IsLeft s (set_phase s r i p)
left s r i p e h = record {
  starts = ap (λ (c : Connection). c.starts) (set_phase-conn s r i p);
  idle = λ q j w. h q j (set_phase-IsWorking s r i p (λ v. cc (e, v)) q j w);
  connected = λ c. rw (set_phase-conn s r i p) at c;
}

Step-IsLeft : {s t : Lifecycle} → Step s t → s.conn.starts ≢ 0 → IsIdle s → IsLeft s t
unfolding channel_failed recv_failed shutdown
Step-IsLeft {s} (Step.first_start e) z h = absurd (z e)
Step-IsLeft {s} (Step.dial_fails i e) z h = absurd (h main i (rw e refl))
Step-IsLeft {s} (Step.channel_fails i answer e) z h = absurd (h main i (rw e refl))
Step-IsLeft {s} (Step.opens i e) z h = absurd (h main i (rw e refl))
Step-IsLeft {s} (Step.receives i msg conn e q) z h = absurd (h reader i (rw e refl))
Step-IsLeft {s} (Step.fails i code answer e) z h = absurd (h reader i (rw e refl))
Step-IsLeft {s} (Step.starts_again r i j e) z h = absurd (h r i (waiting_works s r i j e))
Step-IsLeft {s} (Step.returns r i k e q) z h = left s r i (finishing r) (finishing-idle r) h
Step-IsLeft {s} (Step.stops r i j e q) z h = left s r i (finishing r) (finishing-idle r) h
Step-IsLeft {s} (Step.closes i e) z h =
    let l = left s reader i Phase.over refl h in
    record { starts = refl; idle = l.idle; connected = λ c. c }
Step-IsLeft {s} (Step.ends i e q) z h =
    let l = left s main i Phase.over refl h in
    record { starts = refl; idle = l.idle; connected = λ c. cc }
Step-IsLeft {s} Step.cancels z h = record {
  starts = unfold done_broker in ground arith;
  idle = h;
  connected = λ c. unfold done_broker in ground (arith, c);
}

Steps-IsLeft : {s t : Lifecycle} → Steps s t → s.conn.starts ≢ 0 → IsIdle s → IsLeft s t
Steps-IsLeft Steps.none_yet z h = record { starts = refl; idle = h; connected = λ c. c }
Steps-IsLeft {s} (Steps.then_step {t} {u} g st) z h =
    let a = Steps-IsLeft g z h in
    let b = Step-IsLeft st (λ n. z (sym a.starts ∙ n)) a.idle in
    record {
      starts = b.starts ∙ a.starts;
      idle = b.idle;
      connected = λ c. a.connected (b.connected c);
    }

-- An error after which no goroutine waits: the dial fails, or an error of Channel or of Recv is not
-- followed by a wait.
pub data Failure (s : Lifecycle) : Lifecycle → Type 0 where
  undialled : (i : ℕ) → s.mains i ≡ Phase.opening → Failure s (set_phase s main i Phase.over)
  unopened :
      (i : ℕ) (answer : Bool)
      → s.mains i ≡ Phase.opening
      → planned main s.conn.starts (restart answer s.conn).1 ≡ Phase.over
      → Failure s (channel_failed i answer s)
  unread :
      (i : ℕ) (code : Code) (answer : Bool)
      → s.readers i ≡ Phase.active
      → planned reader s.conn.starts (handle_error code answer s.conn).1 ≡ Phase.closing
      → Failure s (recv_failed i code answer s)

Failure-IsLeft : {s u : Lifecycle} → Steps unused s → Failure s u → IsLeft s u
unfolding channel_failed recv_failed
Failure-IsLeft {s} g (undialled i e) = record {
  starts = refl;
  idle = leaves-IsIdle s main i Phase.over (Steps-IsSingle g) (rw e refl) refl;
  connected = λ c. c;
}
Failure-IsLeft {s} g (unopened i answer e p) = record {
  starts = unfold handle_error in (handle_error-contexts Code.unavailable answer s.conn).0;
  idle =
      leaves-IsIdle s main i (planned main s.conn.starts (restart answer s.conn).1)
        (Steps-IsSingle g) (rw e refl) (rw p refl);
  connected =
      λ c. unfold handle_error in (sym (handle_error-parts Code.unavailable answer s.conn).0 ∙ c);
}
Failure-IsLeft {s} g (unread i code answer e p) = record {
  starts = (handle_error-contexts code answer s.conn).0;
  idle =
      leaves-IsIdle s reader i (planned reader s.conn.starts (handle_error code answer s.conn).1)
        (Steps-IsSingle g) (rw e refl) (rw p refl);
  connected = λ c. sym (handle_error-parts code answer s.conn).0 ∙ c;
}

-- There was a `Start` before a failure.
Failure-started : {s u : Lifecycle} → Steps unused s → Failure s u → s.conn.starts ≢ 0
Failure-started {s} g (undialled i e) = started main i g (rw e refl)
Failure-started {s} g (unopened i answer e p) = started main i g (rw e refl)
Failure-started {s} g (unread i code answer e p) = started reader i g (rw e refl)

-- An error that no wait follows is final for the broker, in every order of what its goroutines do:
-- after the dial has failed, or after an error of Channel or of Recv that `restart` does not wait
-- after, no `Start` is called any more, and the connection is not ready unless it was so before.
pub failures_last :
    {s u t : Lifecycle}
    → Steps unused s
    → Failure s u
    → Steps u t
    → (t.conn.starts ≡ s.conn.starts) × (t.conn.connected ≡ true → s.conn.connected ≡ true)
failures_last {s} {u} {t} g f r =
    let a = Failure-IsLeft g f in
    let b = Steps-IsLeft r (λ n. Failure-started g f (sym a.starts ∙ n)) a.idle in
    (b.starts ∙ a.starts, λ c. a.connected (b.connected c))

-- ===== src/Broker/Lifecycle/Contexts.antt =====
-- The contexts of a broker's connection (broker/broker.go, Start).
use glider_client_go.Common.{ℕ, ◌<◌, ◌≡◌, ◌≢◌, ◌⊎◌, inl, inr, refl, Bool, true, false, none, arith}
use glider_client_go.Broker.Connection
use glider_client_go.Broker.Connection.{
  Connection, idle, cancel, done_broker, begin_start, ready, shutdown, init_reset_process, Code,
  reconnect, restart, handle_error,
}
use glider_client_go.Broker.Lifecycle.{Phase, main, Lifecycle, unused, set_phase, Step, Steps}
use glider_client_go.Broker.Lifecycle.Simulation.{init_reset_process-eq, lifecycle_simulates}

-- Every context before the current one is done, and none after it is.
pub record IsLinear (s : Connection) : Type 0 where
  pub older : (i : ℕ) → i ≢ 0 → i < s.starts → s.cancelled i ≡ true
  pub later : (i : ℕ) → s.starts < i → s.cancelled i ≡ false

pub handle_error-contexts :
    (code : Code) (answer : Bool) (s : Connection)
    → let t = (handle_error code answer s).0 in (t.starts ≡ s.starts) × (t.cancelled ≡ s.cancelled)
unfolding handle_error restart reconnect
handle_error-contexts Code.invalid_argument answer s = (refl, refl)
handle_error-contexts Code.unauthenticated answer s = (refl, refl)
handle_error-contexts Code.unavailable answer s = ground arith
handle_error-contexts Code.other_code answer s = ground arith

same_contexts :
    (s t : Connection) → t.starts ≡ s.starts → t.cancelled ≡ s.cancelled → IsLinear s → IsLinear t
same_contexts s t n c h = record {
  older = λ i z l. rw c (h.older i z (omega arith));
  later = λ i l. rw c (h.later i (omega arith));
}

Step-IsLinear : {s t : Connection} → Connection.Step s t → IsLinear s → IsLinear t
unfolding begin_start done_broker ready shutdown
Step-IsLinear {s} Connection.Step.starting h = record {
  older = λ i z l. ground (arith, h.older i, z, l);
  later = λ i l. ground (arith, h.later i, l);
}
Step-IsLinear {s} (Connection.Step.readies i le) h = same_contexts s _ refl refl h
Step-IsLinear {s} (Connection.Step.resets t e) h =
    let q = init_reset_process-eq s t e in
    same_contexts s t (ground (arith, q)) (ground (arith, q)) h
Step-IsLinear {s} (Connection.Step.fails code answer) h =
    let (n, c) = handle_error-contexts code answer s in same_contexts s _ n c h
Step-IsLinear {s} (Connection.Step.closes i le) h = record {
  older = λ j z l. ground (arith, h.older j, z, l);
  later = λ j l. ground (arith, h.later j, l, le);
}
Step-IsLinear {s} (Connection.Step.ends i e) h = same_contexts s _ refl refl h
Step-IsLinear {s} Connection.Step.cancels h = record {
  older = λ i z l. ground (arith, h.older i, z, l);
  later = λ i l. ground (arith, h.later i, l);
}

Steps-IsLinear : {s t : Connection} → Connection.Steps s t → IsLinear s → IsLinear t
Steps-IsLinear Connection.Steps.none_yet h = h
Steps-IsLinear (Connection.Steps.then_step r st) h = Step-IsLinear st (Steps-IsLinear r h)

is_active? : (p : Phase) → (p ≡ Phase.active) ⊎ (p ≢ Phase.active)
is_active? Phase.active = inl refl
is_active? Phase.unborn = inr (λ e. cc)
is_active? Phase.opening = inr (λ e. cc)
is_active? Phase.closing = inr (λ e. cc)
is_active? Phase.over = inr (λ e. cc)
is_active? (Phase.waiting j) = inr (λ e. cc)
is_active? (Phase.nested k) = inr (λ e. cc)

pub Steps-IsLinear-unused : {t : Lifecycle} → Steps unused t → IsLinear t.conn
Steps-IsLinear-unused r =
    Steps-IsLinear (lifecycle_simulates none r).0
      (record { older = λ j y k. absurd (omega arith); later = λ j k. refl })

-- Whatever the goroutines of a broker do: the context of every `Start` but the latest is done, and
-- the main goroutine of such a `Start` does not wait for the end of its context, or can end.
old_starts_end :
    {t : Lifecycle} (i : ℕ)
    → Steps unused t
    → i ≢ 0
    → i < t.conn.starts
    → (t.conn.cancelled i ≡ true)
      × ((t.mains i ≢ Phase.active)
          ⊎ Step t (record (set_phase t main i Phase.over) { conn = shutdown t.conn }))
old_starts_end {t} i r z l =
    let h = Steps-IsLinear-unused r in
    let gone = h.older i z l in
    (gone, elim (is_active? (t.mains i)) [ inl e ↦ inr (Step.ends i e gone) | inr e ↦ inl e ])

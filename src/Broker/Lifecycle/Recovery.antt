-- ===== src/Broker/Lifecycle/Recovery.antt =====
-- How a broker comes back after its stream has failed (broker/broker.go, handleError, restart, Start).
use glider_client_go.Common.{ℕ, ◌+◌, ◌≡◌, ◌≢◌, refl, sym, ◌∙◌, true, false, some, arith, lit, subst}
use glider_client_go.Common.Int.{pos}
use glider_client_go.Proto.{Message}
use glider_client_go.Backoff.{fibo, duration_max}
use glider_client_go.Broker.Connection.{
  Connection, done_broker, begin_start, ready, shutdown, Code, wait, reconnect, restart,
  handle_error,
}
use glider_client_go.Broker.Lifecycle.{
  Phase, main, reader, Lifecycle, unused, set_phase, call_start, recv_failed, Step, Steps,
}
use glider_client_go.Broker.Lifecycle.Notices.{
  Notice, silent, connects, disconnects, notice, ready_noticed,
}
use glider_client_go.Broker.Lifecycle.Contexts.{Steps-IsLinear-unused}
use glider_client_go.Broker.Lifecycle.Stale.{IsAlone, ready_named}

handle_error-waits :
    (c : Connection)
    → c.starts ≢ 0
    → c.cancelled c.starts ≡ false
    → c.done ≡ false
    → c.duration ≢ duration_max
    → handle_error Code.unavailable false c
      ≡ (record c { duration = fibo (pos c.duration) }, wait (fibo (pos c.duration)))
unfolding handle_error restart reconnect
handle_error-waits c z l d m = ground (arith, z, l, d, m)

-- A step that ends with this call.
abbrev pub Tells : Lifecycle → Lifecycle → Notice → Type 0
Tells s t n = (st : Step s t) × (notice st ≡ n)

-- The reader waits for its timer; it starts again; the former main goroutine ends; the new stream is
-- open; it is ready.
abbrev pub failed : ℕ → Lifecycle → Lifecycle
failed i s = record (set_phase s reader i (Phase.waiting i)) {
  conn = record s.conn { duration = fibo (pos s.conn.duration) };
}

abbrev pub again : ℕ → Lifecycle → Lifecycle
again i s = call_start (set_phase (failed i s) reader i (Phase.nested (s.conn.starts + 1)))

abbrev pub ended : ℕ → Lifecycle → Lifecycle
ended i s = record (set_phase (again i s) main i Phase.over) { conn = shutdown (again i s).conn }

abbrev pub opened : ℕ → Lifecycle → Lifecycle
opened i s = set_phase (set_phase (ended i s) main (i + 1) Phase.active) reader (i + 1) Phase.active

abbrev pub live : ℕ → Lifecycle → Lifecycle
live i s = record (opened i s) { conn = ready (i + 1) (opened i s).conn }

-- One `Start` alone is at work, and neither cancelled, nor marked as done, nor at the largest delay.
pub record IsSteady (i : ℕ) (s : Lifecycle) : Type 0 where
  pub alone : IsAlone i s
  pub uncancelled : s.conn.cancelled i ≡ false
  pub wanted : s.conn.done ≡ false
  pub early : s.conn.duration ≢ duration_max

module _ (i : ℕ) (s : Lifecycle) (h : IsSteady i s) where
  pub fails_silent : Tells s (failed i s) silent
  unfolding notice recv_failed
  fails_silent =
      let a = h.alone in
      let here : recv_failed i Code.unavailable false s ≡ failed i s =
        rw
          (
            handle_error-waits s.conn (λ z. a.made (sym a.latest ∙ z)) (rw a.latest h.uncancelled)
                h.wanted h.early,
            recv_failed,
          )
          (rw a.latest refl) in
      subst (λ (t : Lifecycle). Tells s t silent) here
        (Step.fails i Code.unavailable false a.reader_active, refl)

  pub starts_silent : Tells (failed i s) (again i s) silent
  unfolding notice
  starts_silent = (Step.starts_again reader i i (ground arith), refl)

  pub ends_disconnects : Tells (again i s) (ended i s) disconnects
  unfolding notice call_start begin_start done_broker
  ends_disconnects = (
    Step.ends i (ground (arith, h.alone.latest, h.alone.main_active))
        (ground (arith, h.alone.latest, h.alone.made)),
    refl,
  )

  pub opens_silent : Tells (ended i s) (opened i s) silent
  unfolding notice call_start
  opens_silent = (Step.opens (i + 1) (ground (arith, h.alone.latest, h.alone.main_active)), refl)

  pub receives_connects :
      (msg : Message) → msg.name ≡ lit "_.ready" → Tells (opened i s) (live i s) connects
  unfolding notice
  receives_connects msg named = (
    Step.receives (i + 1) msg (ready (i + 1) (opened i s).conn) (ground arith)
        (ready_named (i + 1) msg (opened i s).conn named),
    ready_noticed msg named,
  )

-- In every order that the goroutines can come to, while one `Start` alone is at work, and neither
-- cancelled, nor marked as done, nor at the largest delay: a stream that breaks can be followed by a
-- state in which the connection is ready on the stream of the next `Start`, whose context is live,
-- its delay is reset, and the main goroutine of the former `Start` is over.
recovers :
    (i : ℕ) (s : Lifecycle) (msg : Message)
    → Steps unused s
    → IsAlone i s
    → s.conn.cancelled i ≡ false
    → s.conn.done ≡ false
    → s.conn.duration ≢ duration_max
    → msg.name ≡ lit "_.ready"
    → (t : Lifecycle) × Steps s t
      × (t.conn.connected ≡ true)
      × (t.conn.stream ≡ some (i + 1))
      × (t.conn.duration ≡ 0)
      × (t.conn.cancelled (i + 1) ≡ false)
      × (t.mains (i + 1) ≡ Phase.active)
      × (t.mains i ≡ Phase.over)
unfolding call_start begin_start done_broker shutdown ready
recovers i s msg reached a l d m named =
    let h : IsSteady i s = record { alone = a; uncancelled = l; wanted = d; early = m } in
    (
      live i s,
      Steps.then_step
          (Steps.then_step
            (Steps.then_step
              (Steps.then_step (Steps.then_step Steps.none_yet (fails_silent i s h).0)
                (starts_silent i s h).0)
              (ends_disconnects i s h).0)
            (opens_silent i s h).0)
          (receives_connects i s h msg named).0,
      refl,
      refl,
      refl,
      ground (arith, a.latest, a.made, (Steps-IsLinear-unused reached).later (i + 1)),
      ground (arith, a.latest),
      ground (arith, a.latest),
    )

-- ===== src/Broker/Lifecycle/Stale.antt =====
-- A "_.ready" that is handled after the end of its `Start` (broker/broker.go).
use glider_client_go.Common.{
  ℕ, ◌≡◌, ◌≢◌, ◌⊎◌, inl, inr, refl, sym, ◌∙◌, Bool, true, false, some, arith, lit, str_eq_iff, ◌==◌,
  ==_iff, Bool-cases,
}
use glider_client_go.Proto.{Message}
use glider_client_go.Broker.Connection.{
  Connection, done_broker, ready, shutdown, Code, reconnect, restart, handle_error,
}
use glider_client_go.Broker.Lifecycle.{
  Phase, Role, main, reader, Lifecycle, phase_of, set_phase, planned, on_message, recv_failed, Step,
  Steps,
}
use glider_client_go.Broker.Lifecycle.Simulation.{
  init_reset_process-eq, on_message-cases, on_message-parts,
}

-- A goroutine that makes no more steps.
abbrev pub is_still : Phase → Bool
is_still Phase.unborn = true
is_still Phase.over = true
is_still _ = false

-- A read goroutine that does not restart.
abbrev pub is_reading : Phase → Bool
is_reading Phase.active = true
is_reading Phase.closing = true
is_reading Phase.over = true
is_reading _ = false

-- The `Start` number `i` is the only one with goroutines at work, and both are active.
pub record IsAlone (i : ℕ) (s : Lifecycle) : Type 0 where
  pub latest : s.conn.starts ≡ i
  pub made : i ≢ 0
  pub main_active : s.mains i ≡ Phase.active
  pub reader_active : s.readers i ≡ Phase.active
  pub mains_still : (j : ℕ) → j ≢ i → is_still (s.mains j) ≡ true
  pub readers_still : (j : ℕ) → j ≢ i → is_still (s.readers j) ≡ true

-- Its main goroutine is over, and the connection counts as connected.
pub record IsStale (i : ℕ) (s : Lifecycle) : Type 0 where
  pub latest : s.conn.starts ≡ i
  pub made : i ≢ 0
  pub gone : s.conn.cancelled i ≡ true
  pub connected : s.conn.connected ≡ true
  pub mains_still : (j : ℕ) → is_still (s.mains j) ≡ true
  pub readers_still : (j : ℕ) → j ≢ i → is_still (s.readers j) ≡ true
  pub reading : is_reading (s.readers i) ≡ true

-- With the context done, no error leads to another start.
handle_error-stale :
    (code : Code) (answer : Bool) (s : Connection)
    → s.starts ≢ 0
    → s.cancelled s.starts ≡ true
    → let (t, plan) = handle_error code answer s in
      (planned reader s.starts plan ≡ Phase.closing)
      × (t.starts ≡ s.starts)
      × (t.cancelled ≡ s.cancelled)
      × (t.connected ≡ s.connected)
unfolding handle_error restart reconnect
handle_error-stale Code.invalid_argument answer s n c = (refl, refl, refl, refl)
handle_error-stale Code.unauthenticated answer s n c = (refl, refl, refl, refl)
handle_error-stale Code.unavailable answer s n c = ground (arith, n, c)
handle_error-stale Code.other_code answer s n c = ground (arith, n, c)

on_message-connected :
    (i : ℕ) (msg : Message) (s t : Connection)
    → on_message i msg s ≡ some t
    → s.connected ≡ true
    → t.connected ≡ true
unfolding ready
on_message-connected i msg s t e h = elim (on_message-cases i msg s t e) [
  | inl q ↦ ground (arith, q)
  | inr (inl q) ↦ ground (arith, init_reset_process-eq s t q, h)
  | inr (inr q) ↦ ground (arith, q, h)
]

-- Of the goroutines only the reader `i` may not be still.
phase_reading :
    (i : ℕ) (s : Lifecycle) (r : Role) (j : ℕ)
    → IsStale i s
    → (is_still (phase_of s r j) ≡ true) ⊎ (is_reading (phase_of s r j) ≡ true)
phase_reading i s main j h = inl (h.mains_still j)
phase_reading i s reader j h = elim (Bool-cases (j == i)) [
  | inl e ↦ inr (rw ((==_iff j i).0 e) h.reading)
  | inr e ↦ inl (h.readers_still j (λ q. ground (arith, e, q)))
]

Step-IsStale : (i : ℕ) {s t : Lifecycle} → Step s t → IsStale i s → IsStale i t
unfolding recv_failed done_broker
Step-IsStale i {s} (Step.first_start e) h = absurd (h.made (sym h.latest ∙ e))
Step-IsStale i {s} (Step.dial_fails j e) h = absurd (cc (e, h.mains_still j))
Step-IsStale i {s} (Step.channel_fails j answer e) h = absurd (cc (e, h.mains_still j))
Step-IsStale i {s} (Step.opens j e) h = absurd (cc (e, h.mains_still j))
Step-IsStale i {s} (Step.receives j msg conn e q) h =
    let (starts, cancelled) = on_message-parts j msg s.conn conn q in
    record {
      latest = starts ∙ h.latest;
      made = h.made;
      gone = rw cancelled h.gone;
      connected = on_message-connected j msg s.conn conn q h.connected;
      mains_still = h.mains_still;
      readers_still = h.readers_still;
      reading = h.reading;
    }
Step-IsStale i {s} (Step.fails j code answer e) h =
    let (closing, starts, cancelled, connected) =
      handle_error-stale code answer s.conn (λ z. h.made (sym h.latest ∙ z)) (rw h.latest h.gone) in
    record {
      latest = starts ∙ h.latest;
      made = h.made;
      gone = rw cancelled h.gone;
      connected = connected ∙ h.connected;
      mains_still = h.mains_still;
      readers_still = λ k n. ground (arith, closing, h.readers_still k, n, e);
      reading = ground (arith, closing, h.reading);
    }
Step-IsStale i {s} (Step.starts_again r j k e) h =
    absurd (elim (phase_reading i s r j h) [ inl q ↦ cc (e, q) | inr q ↦ cc (e, q) ])
Step-IsStale i {s} (Step.returns r j k e q) h =
    absurd (elim (phase_reading i s r j h) [ inl p ↦ cc (e, p) | inr p ↦ cc (e, p) ])
Step-IsStale i {s} (Step.stops r j k e q) h =
    absurd (elim (phase_reading i s r j h) [ inl p ↦ cc (e, p) | inr p ↦ cc (e, p) ])
Step-IsStale i {s} (Step.closes j e) h = record {
  latest = h.latest;
  made = h.made;
  gone = ground (arith, h.gone);
  connected = h.connected;
  mains_still = h.mains_still;
  readers_still = λ k n. ground (arith, h.readers_still k, n, e);
  reading = ground (arith, h.reading);
}
Step-IsStale i {s} (Step.ends j e q) h = absurd (cc (e, h.mains_still j))
Step-IsStale i {s} Step.cancels h = record {
  latest = ground (arith, h.latest);
  made = h.made;
  gone = ground (arith, h.gone);
  connected = ground (arith, h.connected);
  mains_still = h.mains_still;
  readers_still = h.readers_still;
  reading = h.reading;
}

Steps-IsStale : (i : ℕ) {s t : Lifecycle} → Steps s t → IsStale i s → IsStale i t
Steps-IsStale i Steps.none_yet h = h
Steps-IsStale i (Steps.then_step r st) h = Step-IsStale i st (Steps-IsStale i r h)

pub ready_named :
    (i : ℕ) (msg : Message) (s : Connection)
    → msg.name ≡ lit "_.ready"
    → on_message i msg s ≡ some (ready i s)
unfolding on_message
ready_named i msg s e = ground (arith, e, str_eq_iff msg.name (lit "_.ready"))

-- While one `Start` alone is at work, the client may cancel it, its main goroutine end, and its
-- reader handle a "_.ready" after that. The connection then counts as connected, with nobody left
-- to end it, in every state that can follow.
pub stale_ready :
    (i : ℕ) (s : Lifecycle) (msg : Message)
    → IsAlone i s
    → msg.name ≡ lit "_.ready"
    → (t : Lifecycle) × Steps s t
      × ((u : Lifecycle)
          → Steps t u
          → (u.conn.connected ≡ true)
            × ((j : ℕ) → is_still (u.mains j) ≡ true)
            × (u.conn.cancelled i ≡ true))
unfolding done_broker ready shutdown on_message
stale_ready i s msg a named =
    let cancelled = record s { conn = done_broker s.conn } in
    let ended = record (set_phase cancelled main i Phase.over) { conn = shutdown cancelled.conn } in
    let last = record ended { conn = ready i ended.conn } in
    let stale : IsStale i last = record {
      latest = ground (arith, a.latest);
      made = a.made;
      gone = ground (arith, a.latest, a.made);
      connected = refl;
      mains_still = λ j. ground (arith, a.mains_still j);
      readers_still = a.readers_still;
      reading = rw a.reader_active refl;
    } in
    (
      last,
      Steps.then_step
          (Steps.then_step (Steps.then_step Steps.none_yet Step.cancels)
            (Step.ends i a.main_active (ground (arith, a.latest, a.made))))
          (Step.receives i msg (ready i ended.conn) a.reader_active
            (ready_named i msg ended.conn named)),
      λ u v. let h = Steps-IsStale i v stale in (h.connected, h.mains_still, h.gone),
    )

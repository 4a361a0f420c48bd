-- ===== src/Client/Handshake/Resets.antt =====
-- The flag and the goroutine of a reset (client/client.go, reset and Start).
use glider_client_go.Common.{
  ◌≡◌, ◌⊎◌, inl, inr, refl, sym, ◌∙◌, ap, Bool, true, false, List, Bytes, arith, Option-cases,
}
use glider_client_go.Broker.Info.{Broker}
use glider_client_go.Broker.Store
use glider_client_go.Client.{Client, set, connect, delete, reset, begin_owerstaying, start}
use glider_client_go.Client.RoundRobin.{next_broker_parts}
use glider_client_go.Client.Handshake.{
  Goroutine, System, call_reset, decide_signal, done_brokers, Step, Steps,
}

abbrev is_at_work : Goroutine → Bool
is_at_work Goroutine.absent = false
is_at_work Goroutine.selecting = true
is_at_work Goroutine.restarting = true
is_at_work Goroutine.starting = true

Goroutine-cases :
    (g : Goroutine)
    → (g ≡ Goroutine.absent)
      ⊎ (g ≡ Goroutine.selecting)
      ⊎ (g ≡ Goroutine.restarting)
      ⊎ (g ≡ Goroutine.starting)
Goroutine-cases Goroutine.absent = inl refl
Goroutine-cases Goroutine.selecting = inr (inl refl)
Goroutine-cases Goroutine.restarting = inr (inr (inl refl))
Goroutine-cases Goroutine.starting = inr (inr (inr refl))

-- The flag is set while the goroutine is at work.
abbrev IsFlagged : System → Type 0
IsFlagged s = s.client.reset_process ≡ is_at_work s.goroutine

pub connect-reset_process :
    (c : Client) (id : Bytes) → (connect c id).reset_process ≡ c.reset_process
unfolding connect set
connect-reset_process c id = ground (arith, Option-cases (Store.get c.brokers id))

decide_signal-is_at_work :
    (s : System) → is_at_work (decide_signal s).goroutine ≡ is_at_work s.goroutine
unfolding decide_signal
decide_signal-is_at_work s = elim (Goroutine-cases s.goroutine) [
  | inl e ↦ ground (arith, e)
  | inr (inl e) ↦ ground (arith, e)
  | inr (inr (inl e)) ↦ ground (arith, e)
  | inr (inr (inr e)) ↦ ground (arith, e)
]

decide_signal-client : (s : System) → (decide_signal s).client ≡ s.client
unfolding decide_signal
decide_signal-client s = ground arith

Step-IsFlagged : {s t : System} → Step s t → IsFlagged s → IsFlagged t
unfolding call_reset reset delete start done_brokers begin_owerstaying
Step-IsFlagged {s} (Step.resets b) h = ground (arith, h)
Step-IsFlagged {s} (Step.deletes id b) h = h
Step-IsFlagged {s} (Step.decides d) h =
    ap (λ (c : Client). c.reset_process) (decide_signal-client s)
    ∙ (h ∙ sym (decide_signal-is_at_work s))
Step-IsFlagged {s} (Step.connects id b) h = connect-reset_process s.client id ∙ h
Step-IsFlagged {s} (Step.expires e) h = ground (arith, e, h)
Step-IsFlagged {s} (Step.cancels e) h = ground (arith, e, h)
Step-IsFlagged {s} (Step.restarts response hostname uuid e) h = refl
Step-IsFlagged {s} (Step.overstays response hostname uuid b e) h = ground (arith, e, h)
Step-IsFlagged {s} (Step.picks r c e) h = ground (arith, next_broker_parts s.client c r e, h)

Steps-IsFlagged : {s t : System} → Steps s t → IsFlagged s → IsFlagged t
Steps-IsFlagged Steps.none_yet h = h
Steps-IsFlagged (Steps.then_step r st) h = Step-IsFlagged st (Steps-IsFlagged r h)

-- The reset has ended with `Start`.
abbrev pub ended : System → Client → List Broker → Bytes → Bytes → System
ended t c response hostname uuid = record t {
  client = start c response hostname uuid;
  goroutine = Goroutine.absent;
}

-- From what the goroutine does next to its end.
ends_from :
    (t : System) (response : List Broker) (hostname uuid : Bytes)
    → is_at_work t.goroutine ≡ true
    → (c : Client) × Steps t (ended t c response hostname uuid)
ends_from t response hostname uuid w = elim (Goroutine-cases t.goroutine) [
  | inl e ↦ absurd (ground (arith, w, e))
  | inr (inl e) ↦ (
    done_brokers t.client,
    Steps.then_step
        (Steps.then_step (Steps.then_step Steps.none_yet (Step.expires e)) (Step.cancels refl))
        (Step.restarts response hostname uuid refl),
  )
  | inr (inr (inl e)) ↦ (
    done_brokers t.client,
    Steps.then_step (Steps.then_step Steps.none_yet (Step.cancels e))
        (Step.restarts response hostname uuid refl),
  )
  | inr (inr (inr e)) ↦
      (t.client, Steps.then_step Steps.none_yet (Step.restarts response hostname uuid e))
]

-- In this relation, in which `Done` is one step, after the first Start, if no reset is under way then,
-- and in every order of calls from there on:
-- either no goroutine of a reset is at work, and the flag is clear, so that a reset may begin; or
-- one is at work, the flag is set, and it can end with a `Start` on any response to come, after which
-- the flag is clear, even if calls wait on the channel.
pub reset_ends :
    {s t : System} (response : List Broker) (hostname uuid : Bytes)
    → s.goroutine ≡ Goroutine.absent
    → s.client.reset_process ≡ false
    → Steps s t
    → ((t.goroutine ≡ Goroutine.absent)
        × (t.client.reset_process ≡ false)
        × ((reset t.client).1 ≡ true))
      ⊎ ((t.client.reset_process ≡ true)
          × ((reset t.client).1 ≡ false)
          × (c : Client) × Steps t (ended t c response hostname uuid)
          × ((reset (ended t c response hostname uuid).client).1 ≡ true))
unfolding reset start
reset_ends {s} {t} response hostname uuid a f r =
    let h : IsFlagged t = Steps-IsFlagged r (ground (arith, a, f)) in
    elim (Goroutine-cases t.goroutine) [
      | inl e ↦ inl (e, ground (arith, e, h), ground (arith, e, h))
      | inr at_work ↦
          let w : is_at_work t.goroutine ≡ true = ground (arith, at_work) in
          let (c, g) = ends_from t response hostname uuid w in
          inr (h ∙ w, ground (arith, h, w), c, g, refl)
    ]

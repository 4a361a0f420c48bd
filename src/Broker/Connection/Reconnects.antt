-- ===== src/Broker/Connection/Reconnects.antt =====
-- How often a broker starts again by itself (broker/broker.go, restart).
use glider_client_go.Common.{
  ℕ, zero, suc, ◌+◌, ◌-◌, ◌<◌, ◌≤◌, ◌≡◌, refl, false, List, [], ◌∷◌, arith, length,
}
use glider_client_go.Common.Int.{pos}
use glider_client_go.Backoff.{duration_max}
use glider_client_go.Backoff.Spec.{fibo_grows, fibo_most}
use glider_client_go.Broker.Connection.{
  Connection, overstay_attempts, begin_start, done_broker, Plan, gave_up, handed_over, not_wanted,
  wait, reconnect, restart,
}

-- The waits of `n` failures in a row, each but the last followed by a new `Start`, while the client
-- does not take over.
unfoldable pub waits : ℕ → Connection → List ℕ
waits zero s = []
waits (suc n) s =
    let rest = waits n (begin_start (restart false s).0) in
    elim (restart false s).1 [ wait d ↦ d ∷ rest | _ ↦ [] ]

-- How many waits are left at most.
abbrev pub left : Connection → ℕ
left s = (duration_max - s.duration) + (overstay_attempts - s.overstay_count)

restart-left :
    (s : Connection) (d : ℕ)
    → s.duration ≤ duration_max
    → (restart false s).1 ≡ wait d
    → (left (restart false s).0 < left s) × ((restart false s).0.duration ≤ duration_max)
unfolding restart reconnect
restart-left s d h e =
    let (grows, stays) = fibo_grows s.duration in
    let most = fibo_most (pos s.duration) in ground (arith, grows, stays, most, e, h)

-- However many failures follow each other, from a delay of at most 24 the broker starts again by
-- itself at most once for each
-- second that the delay is short of 24, and as often as the overstay limit allows after that; then
-- it stops for good.
pub waits_bounded :
    (n : ℕ) (s : Connection) → s.duration ≤ duration_max → length (waits n s) ≤ left s
unfolding waits
waits_bounded zero s h = omega arith
waits_bounded (suc n) s h =
    by_plan (restart false s).1 refl (waits_bounded n (begin_start (restart false s).0))
  where
    next : List ℕ
    next = waits n (begin_start (restart false s).0)

    more :
        (restart false s).0.duration ≤ duration_max
        → (begin_start (restart false s).0).duration ≤ duration_max
    more m = unfold begin_start done_broker in ground arith

    again : left (begin_start (restart false s).0) ≤ left (restart false s).0
    again = unfold begin_start done_broker in ground arith

    by_plan :
        (p : Plan)
        → (restart false s).1 ≡ p
        → ((begin_start (restart false s).0).duration ≤ duration_max
            → length next ≤ left (begin_start (restart false s).0))
        → length (elim p [ wait d ↦ d ∷ next | _ ↦ [] ]) ≤ left s
    by_plan gave_up e rest = omega arith
    by_plan handed_over e rest = omega arith
    by_plan not_wanted e rest = omega arith
    by_plan (wait d) e rest =
        let (less, most) = restart-left s d h e in omega (arith, less, again, rest (more most))

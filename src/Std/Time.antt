-- ===== src/Std/Time.antt =====
-- package time: an instant is its nanoseconds since the Unix epoch, a duration an int64 of
-- nanoseconds.
use glider_client_go.Common.{
  ℕ, ◌+◌, ◌-◌, ◌*◌, ◌/◌, ◌^◌, ◌≤◌, ◌<◌, ◌≡◌, ◌↔◌, Bool, arith, ltb, if◌then◌else◌, false,
}
use glider_client_go.Common.Int.{
  ℤ, pos, negsuc, pos_part, neg_part, ◌-ℤ◌, ltb_ℤ, -ℤ_parts, one_part,
}

abbrev pub Instant : Type 0
Instant = ℤ

abbrev pub Duration : Type 0
Duration = ℤ

abbrev pub second : ℕ
second = 1_000_000_000

abbrev pub max_duration : ℤ
max_duration = pos (2 ^ 63 - 1)

abbrev pub min_duration : ℤ
min_duration = negsuc (2 ^ 63 - 1)

-- Seconds from January 1 of year 1 to the epoch: a Time counts its seconds from there in an int64.
abbrev pub unix_to_internal : ℕ
unix_to_internal = 62_135_596_800

-- `time.Unix(ts, 0)`: the internal seconds wrap around.
unfoldable pub unix : ℤ → Instant
unix (pos ts) =
    if ltb (ts + unix_to_internal) (2 ^ 63)
    then pos (ts * second)
    else negsuc ((2 ^ 64 - ts) * second - 1)
unix (negsuc n) = negsuc ((n + 1) * second - 1)

-- `t.Unix()`: the whole seconds, rounded down.
unfoldable pub unix_of : Instant → ℤ
unix_of (pos n) = pos (n / second)
unix_of (negsuc n) = negsuc (n / second)

-- `t.Sub(u)`: a difference that does not fit is the largest or the smallest duration.
unfoldable pub sub_time : Instant → Instant → Duration
sub_time t u =
    let d = t -ℤ u in
    if ltb_ℤ d min_duration then min_duration else if ltb_ℤ max_duration d then max_duration else d

-- `-d` on an int64: the smallest value is its own negation.
unfoldable pub neg_duration : Duration → Duration
neg_duration d = if ltb_ℤ min_duration d then pos 0 -ℤ d else min_duration

-- `t.After(u)`
abbrev pub after : Instant → Instant → Bool
after t u = ltb_ℤ u t

-- `if d < 0 { d = -d }`
unfoldable pub abs_duration : Duration → Duration
unfolding neg_duration
abs_duration d = if ltb_ℤ d (pos 0) then neg_duration d else d

-- `t` is at most `s` nanoseconds after `u`.
abbrev pub AtMost : ℕ → Instant → Instant → Type 0
AtMost s t u = pos_part t + neg_part u ≤ pos_part u + neg_part t + s

-- While `u` is less than 2 ^ 63 ns ahead of `t`, the absolute difference is compared exactly.
pub abs_duration_sub_iff :
    (t u : Instant) (s : ℕ)
    → s < 2 ^ 63 - 1
    → pos_part u + neg_part t < pos_part t + neg_part u + 2 ^ 63
    → (ltb_ℤ (pos s) (abs_duration (sub_time t u)) ≡ false) ↔ (AtMost s t u × AtMost s u t)
unfolding abs_duration sub_time
abs_duration_sub_iff t u s hs near = ground (
  arith,
  -ℤ_parts t u,
  one_part (t -ℤ u),
  -ℤ_parts (pos 0) (t -ℤ u),
  one_part (pos 0 -ℤ (t -ℤ u)),
)

-- Further ahead, the absolute difference is the smallest duration, below every bound.
pub abs_duration_sub_far :
    (t u : Instant) (s : ℕ)
    → pos_part t + neg_part u + 2 ^ 63 ≤ pos_part u + neg_part t
    → ltb_ℤ (pos s) (abs_duration (sub_time t u)) ≡ false
unfolding abs_duration sub_time
abs_duration_sub_far t u s far = ground (arith, -ℤ_parts t u, one_part (t -ℤ u))

-- `age := t.Sub(u); if age < 0 { age = 0 }`
unfoldable pub age_of : Instant → Instant → Duration
age_of t u = let age = sub_time t u in if ltb_ℤ age (pos 0) then pos 0 else age

-- The age is compared exactly at every distance.
pub age_of_iff :
    (t u : Instant) (s : ℕ) → s < 2 ^ 63 - 1 → (ltb_ℤ (pos s) (age_of t u) ≡ false) ↔ AtMost s t u
unfolding age_of sub_time
age_of_iff t u s hs = ground (arith, -ℤ_parts t u, one_part (t -ℤ u))

pub age_of_far :
    (t u : Instant) (s : ℕ)
    → pos_part t + neg_part u + 2 ^ 63 ≤ pos_part u + neg_part t
    → ltb_ℤ (pos s) (age_of t u) ≡ false
unfolding age_of sub_time
age_of_far t u s far = ground (arith, -ℤ_parts t u, one_part (t -ℤ u))

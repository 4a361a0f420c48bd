-- ===== src/Auth/Window.antt =====
-- The clock checks of `Validate` (authhmac/authhmac.go) against plain arithmetic on instants.
use glider_client_go.Common.{◌+◌, ◌-◌, ◌^◌, ◌≤◌, ◌<◌, ◌≡◌, ◌↔◌, ◌⊎◌, arith, ok, Bytes}
use glider_client_go.Common.Int.{ℤ, pos, negsuc, pos_part, neg_part, ◌≤ℤ◌, ◌<ℤ◌}
use glider_client_go.Std.Time.{
  Instant, AtMost, abs_duration_sub_iff, abs_duration_sub_far, age_of_iff, age_of_far,
}
use glider_client_go.Auth.{Authhmac, check_skew, check_ttl}

-- What the options promise of a request created at `u` and checked at `now`: within the skew in
-- both directions, or not in the future if no skew is set; and no older than the TTL, if one is set.
abbrev pub IsFresh : Authhmac → Instant → Instant → Type 0
IsFresh a now u =
    ((pos 0 <ℤ a.skew) × AtMost (pos_part a.skew) now u × AtMost (pos_part a.skew) u now
      ⊎ (a.skew ≤ℤ pos 0) × (u ≤ℤ now))
    × ((a.ttl ≤ℤ pos 0) ⊎ AtMost (pos_part a.ttl) now u)

check_skew_iff :
    (skew : ℤ) (ttl : ℤ) (secret : Bytes) (now u : Instant)
    → pos_part skew < 2 ^ 63 - 1
    → pos_part u + neg_part now < pos_part now + neg_part u + 2 ^ 63
    → (check_skew (record { skew = skew; ttl = ttl; secret = secret }) now u ≡ ok tt) ↔ (
        (pos 0 <ℤ skew) × AtMost (pos_part skew) now u × AtMost (pos_part skew) u now
        ⊎ (skew ≤ℤ pos 0) × (u ≤ℤ now))
unfolding check_skew
check_skew_iff (pos s) ttl secret now u hs near = ground (arith, abs_duration_sub_iff now u s)
check_skew_iff (negsuc s) ttl secret now u hs near = ground arith

check_ttl_iff :
    (skew : ℤ) (ttl : ℤ) (secret : Bytes) (now u : Instant)
    → pos_part ttl < 2 ^ 63 - 1
    → (check_ttl (record { skew = skew; ttl = ttl; secret = secret }) now u ≡ ok tt)
      ↔ ((ttl ≤ℤ pos 0) ⊎ AtMost (pos_part ttl) now u)
unfolding check_ttl
check_ttl_iff skew (pos t) secret now u ht = ground (arith, age_of_iff now u t)
check_ttl_iff skew (negsuc t) secret now u ht = ground arith

-- For a request less than 2 ^ 63 ns in the future, the two checks accept exactly the fresh ones.
pub check_clock_iff :
    (a : Authhmac) (now u : Instant)
    → pos_part a.skew < 2 ^ 63 - 1
    → pos_part a.ttl < 2 ^ 63 - 1
    → pos_part u + neg_part now < pos_part now + neg_part u + 2 ^ 63
    → ((check_skew a now u ≡ ok tt) × (check_ttl a now u ≡ ok tt)) ↔ IsFresh a now u
check_clock_iff a now u hs ht near =
    let drift = check_skew_iff a.skew a.ttl a.secret now u hs near in
    let age = check_ttl_iff a.skew a.ttl a.secret now u ht in
    (λ e. (drift.0 e.0, age.0 e.1), λ f. (drift.1 f.0, age.1 f.1))

check_skew_far :
    (skew ttl : ℤ) (secret : Bytes) (now u : Instant)
    → pos 0 <ℤ skew
    → pos_part now + neg_part u + 2 ^ 63 ≤ pos_part u + neg_part now
    → check_skew (record { skew = skew; ttl = ttl; secret = secret }) now u ≡ ok tt
unfolding check_skew
check_skew_far (pos s) ttl secret now u hs far = ground (arith, abs_duration_sub_far now u s)
check_skew_far (negsuc s) ttl secret now u hs far = absurd (omega arith)

check_ttl_far :
    (skew ttl : ℤ) (secret : Bytes) (now u : Instant)
    → pos_part now + neg_part u + 2 ^ 63 ≤ pos_part u + neg_part now
    → check_ttl (record { skew = skew; ttl = ttl; secret = secret }) now u ≡ ok tt
unfolding check_ttl
check_ttl_far skew (pos t) secret now u far = ground (arith, age_of_far now u t)
check_ttl_far skew (negsuc t) secret now u far = ground arith

-- A request 2 ^ 63 ns or more in the future passes both checks whenever a skew is set: the
-- saturated difference is its own negation.
pub check_clock_far :
    (a : Authhmac) (now u : Instant)
    → pos 0 <ℤ a.skew
    → pos_part now + neg_part u + 2 ^ 63 ≤ pos_part u + neg_part now
    → (check_skew a now u ≡ ok tt) × (check_ttl a now u ≡ ok tt)
check_clock_far a now u hs far = (
  check_skew_far a.skew a.ttl a.secret now u hs far,
  check_ttl_far a.skew a.ttl a.secret now u far,
)

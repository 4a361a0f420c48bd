-- ===== src/Backoff.antt =====
-- The two retry delays: broker/utils.go (fibo, capped at durationMax) and httpclient/utils.go
-- (Fibo, capped at 16). An int has 64 bits, two's complement, and the sum wraps around. The loop
-- runs on fuel; for an attempt below 2 ^ 62, `attempt + 1` rounds are enough, since `b` grows by one
-- at least and does not wrap around.
pub mod Spec
mod Examples
use glider_client_go.Common.{
  ℕ, zero, suc, ◌+◌, Option, none, some, arith, ltb, leb, Bool, ◌||◌, ◌%◌, ◌^◌, if◌then◌else◌,
}
use glider_client_go.Common.Int.{ℤ, pos, negsuc, pos_part}

-- `b <= attempt`, for the bits of `b` and an attempt that is not negative.
abbrev pub at_most : ℕ → ℕ → Bool
at_most b attempt = leb (2 ^ 63) b || leb b attempt

-- for b <= attempt { a, b = b, a+b }, on the bits of `a` and `b`; `none` while it goes on.
unfoldable pub fibo_loop : ℕ → ℕ → ℕ → ℕ → Option ℕ
fibo_loop zero attempt a b = none
fibo_loop (suc fuel) attempt a b =
    let rest = fibo_loop fuel attempt b ((a + b) % 2 ^ 64) in
    if at_most b attempt then rest else some b

-- The loop from `a, b := 1, 1`; 0 stands for a loop that has not ended after `attempt + 1` rounds,
-- for which the attempt is 2 ^ 62 or more.
unfoldable pub next_fibo : ℕ → ℕ
next_fibo attempt = elim (fibo_loop (suc attempt) attempt 1 1) [ some b ↦ b | none ↦ 0 ]

-- durationMax
abbrev pub duration_max : ℕ
duration_max = 24

-- broker.fibo: a negative attempt counts as 0.
unfoldable pub fibo : ℤ → ℕ
fibo attempt =
    let b = next_fibo (pos_part attempt) in if ltb duration_max b then duration_max else b

-- httpclient.Fibo
unfoldable pub http_fibo : ℤ → ℕ
http_fibo attempt = let b = next_fibo (pos_part attempt) in if ltb 16 b then 16 else b

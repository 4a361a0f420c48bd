-- ===== src/Backoff/Spec.antt =====
-- The retry delays (broker/utils.go, httpclient/utils.go) against the Fibonacci numbers.
use Prim.Native.Nat.{min}
use Prim.Native.Nat.add
use native.Mathlib.Nat.{zero-add}
use native.Mathlib.Decide.{dec_lt}
use glider_client_go.Common.{
  ap, ◌∙◌, ◌%◌, ◌^◌, none, ◌-◌, ℕ, zero, suc, ◌+◌, ◌≤◌, ◌<◌, ◌≡◌, inl, inr, refl, some, arith,
  Bool-cases,
}
use glider_client_go.Common.Int.{ℤ, pos, pos_part}
use glider_client_go.Backoff.{fibo_loop, next_fibo, fibo, http_fibo, duration_max, at_most}

-- 1, 1, 2, 3, 5, 8, …
unfoldable pub fib : ℕ → ℕ
fib zero = 1
fib (suc zero) = 1
fib (suc (suc n)) = fib n + fib (suc n)

fib_pos : (n : ℕ) → 1 ≤ fib n
unfolding fib
fib_pos zero = omega arith
fib_pos (suc zero) = omega arith
fib_pos (suc (suc n)) = omega (arith, fib_pos n)

fib-le-suc : (n : ℕ) → fib n ≤ fib (suc n)
unfolding fib
fib-le-suc zero = omega arith
fib-le-suc (suc n) = omega arith

fib_mono : (m k : ℕ) → fib m ≤ fib (k + m)
fib_mono m zero = rw zero-add (omega arith)
fib_mono m (suc k) = rw add.suc (omega (arith, fib_mono m k, fib-le-suc (k + m)))

fib-le : (m n : ℕ) → m ≤ n → fib m ≤ fib n
fib-le m n h = let e : n ≡ (n - m) + m = omega arith in rw e (fib_mono m (n - m))

-- The successor of a Fibonacci number is next.
fib-suc-le : (i j : ℕ) → fib i < fib j → fib (suc i) ≤ fib j
fib-suc-le i j h = elim (dec_lt i j) [
  | yes below ↦ fib-le (suc i) j below
  | no above ↦ absurd (omega (arith, fib-le j i (omega arith)))
]

-- `r` is the smallest Fibonacci number greater than `attempt`.
pub record IsNextFib (attempt r : ℕ) : Type 0 where
  pub index : ℕ
  pub is_fib : r ≡ fib index
  pub greater : attempt < r
  pub smallest : (j : ℕ) → attempt < fib j → r ≤ fib j

fibo_loop_lem :
    (fuel attempt k : ℕ)
    → attempt < 2 ^ 62
    → fib (suc k) < 2 ^ 63
    → attempt + 1 < suc fuel + fib (suc k)
    → ((j : ℕ) → attempt < fib j → fib (suc k) ≤ fib j)
    → (r : ℕ) × (fibo_loop (suc fuel) attempt (fib k) (fib (suc k)) ≡ some r) × IsNextFib attempt r
unfolding fibo_loop fib
fibo_loop_lem zero attempt k lt small h least = (
  fib (suc k),
  ground (arith, small),
  record { index = suc k; is_fib = refl; greater = omega arith; smallest = least },
)
fibo_loop_lem (suc fuel) attempt k lt small h least =
    elim (Bool-cases (at_most (fib (suc k)) attempt)) [
      | inr done ↦ (
        fib (suc k),
        rw done refl,
        record { index = suc k; is_fib = refl; greater = ground arith; smallest = least },
      )
      | inl more ↦
          let le : fib (suc k) ≤ attempt = ground (arith, more, small) in
          let grown : fib k ≤ fib (suc k) = fib-le-suc k in
          let sum : (fib k + fib (suc k)) % 2 ^ 64 ≡ fib (suc (suc k)) = omega arith in
          let (r, e, next) =
            fibo_loop_lem fuel attempt (suc k) lt (omega arith) (omega (arith, fib_pos k))
              (λ j hj. fib-suc-le (suc k) j (omega arith)) in
          (r, rw more (ap (λ (b : ℕ). fibo_loop (suc fuel) attempt (fib (suc k)) b) sum ∙ e), next)
    ]

next_fibo-IsNextFib :
    (attempt : ℕ)
    → attempt < 2 ^ 62
    → (fibo_loop (suc attempt) attempt 1 1 ≡ some (next_fibo attempt))
      × IsNextFib attempt (next_fibo attempt)
unfolding next_fibo fib
next_fibo-IsNextFib attempt lt =
    let (r, e, next) =
      fibo_loop_lem attempt attempt 0 lt (omega arith) (omega arith) (λ j _. fib_pos j) in
    rw (e, next_fibo) (refl, next)

-- At the largest int no `b` is greater than the attempt, and the loop never ends.
fibo_loop-diverges : (fuel a b : ℕ) → fibo_loop fuel (2 ^ 63 - 1) a b ≡ none
unfolding fibo_loop
fibo_loop-diverges zero a b = refl
fibo_loop-diverges (suc fuel) a b = ground (arith, fibo_loop-diverges fuel b ((a + b) % 2 ^ 64))

-- For an attempt below 2 ^ 62 the loop ends, within `attempt + 1` rounds and with no sum that wraps
-- around, at the smallest Fibonacci number greater than the attempt, and the reconnect delay is this
-- number, or 24 if that is less; a negative attempt counts as 0. For the largest int the loop never
-- ends.
pub fibo-IsNextFib :
    (attempt : ℤ)
    → pos_part attempt < 2 ^ 62
    → ((r : ℕ) × (fibo_loop (suc (pos_part attempt)) (pos_part attempt) 1 1 ≡ some r)
        × IsNextFib (pos_part attempt) r
        × (fibo attempt ≡ min r duration_max))
      × ((rounds : ℕ) → fibo_loop rounds (2 ^ 63 - 1) 1 1 ≡ none)
unfolding fibo
fibo-IsNextFib attempt lt =
    let (ends, next) = next_fibo-IsNextFib (pos_part attempt) lt in
    (
      (next_fibo (pos_part attempt), ends, next, ground arith),
      λ rounds. fibo_loop-diverges rounds 1 1,
    )

-- The same of the HTTP delay, with 16.
http_fibo-IsNextFib :
    (attempt : ℤ)
    → pos_part attempt < 2 ^ 62
    → (r : ℕ) × IsNextFib (pos_part attempt) r × (http_fibo attempt ≡ min r 16)
unfolding http_fibo
http_fibo-IsNextFib attempt lt =
    (next_fibo (pos_part attempt), (next_fibo-IsNextFib _ lt).1, ground arith)

-- Each delay grows until it reaches 24, and stays there.
pub fibo_grows :
    (d : ℕ)
    → (d < duration_max → d < fibo (pos d)) × (d ≡ duration_max → fibo (pos d) ≡ duration_max)
unfolding fibo
fibo_grows d = (
  λ h. let g = (next_fibo-IsNextFib d (omega arith)).1.greater in ground (arith, g),
  λ h. let g = (next_fibo-IsNextFib d (omega arith)).1.greater in ground (arith, g),
)

-- The delay after `n` reconnects in a row.
unfoldable pub delay_after : ℕ → ℕ
delay_after zero = 0
delay_after (suc n) = fibo (pos (delay_after n))

delay_fixed : (n : ℕ) → delay_after n ≡ 24 → delay_after (suc n) ≡ 24
unfolding delay_after
delay_fixed n e = rw e ((fibo_grows 24).1 refl)

delay_eight : delay_after 8 ≡ 24
unfolding delay_after fibo next_fibo fibo_loop
delay_eight = refl

-- From the eighth reconnect in a row on, every delay is the largest one.
delay_saturates : (n : ℕ) → delay_after (n + 8) ≡ duration_max
delay_saturates zero = rw zero-add delay_eight
delay_saturates (suc n) = rw add.suc (delay_fixed (n + 8) (delay_saturates n))

-- No reconnect delay is longer than 24.
pub fibo_most : (attempt : ℤ) → fibo attempt ≤ duration_max
unfolding fibo
fibo_most attempt = ground arith

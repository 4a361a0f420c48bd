-- ===== src/Backoff/Examples.antt =====
-- Tests of the retry delays (broker/utils.go, httpclient/utils.go), and the theorems at inputs.
use Prim.Native.Nat.{min}
use glider_client_go.Common.{◌-◌, ◌^◌, some, none, arith, ℕ, ◌≡◌, refl, [], ◌∷◌, map}
use glider_client_go.Common.Int.{pos}
use glider_client_go.Backoff.{fibo_loop, next_fibo, fibo, duration_max}
use glider_client_go.Backoff.Spec.{delay_after, fibo-IsNextFib, IsNextFib}

schedule :
    map delay_after (1 ∷ 2 ∷ 3 ∷ 4 ∷ 5 ∷ 6 ∷ 7 ∷ 8 ∷ 9 ∷ [])
    ≡ 1 ∷ 2 ∷ 3 ∷ 5 ∷ 8 ∷ 13 ∷ 21 ∷ 24 ∷ 24 ∷ []
unfolding delay_after fibo next_fibo fibo_loop
schedule = refl

fibo-IsNextFib_example :
    ((r : ℕ) × (fibo_loop 8 7 1 1 ≡ some r) × IsNextFib 7 r × (fibo (pos 7) ≡ min r duration_max))
    × ((rounds : ℕ) → fibo_loop rounds (2 ^ 63 - 1) 1 1 ≡ none)
fibo-IsNextFib_example = fibo-IsNextFib (pos 7) (omega arith)

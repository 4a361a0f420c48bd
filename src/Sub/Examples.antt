-- ===== src/Sub/Examples.antt =====
-- Tests of sub/store.go and sub/sub.go, and their theorems at inputs. A callback is a number.
use glider_client_go.Common.{ℕ, zero, suc, ◌≡◌, refl, [], ◌∷◌, Bytes, lit, str_eq, All}
use glider_client_go.Common.Maps.{lookup, insert}
use glider_client_go.Sub.{
  Store, new, create, append_handler, register, recv, sub_register, sub_recv,
}
use glider_client_go.Sub.Race.{Call, System, advance, turn, run, here, next}
use glider_client_go.Sub.Race.Lost.{two_calls, register_race}
use glider_client_go.Sub.Refine.{handlers_of}
use glider_client_go.Sub.Race.Owners.{Begins, AskedBy, Reach-delivered}
use glider_client_go.Sub.Race.Invariant.{IsFor}

abbrev orders : Bytes
orders = lit "orders"

-- Two handlers of one event, and one of another.
abbrev three : Store ℕ
three =
    register (register (register new orders (lit "a") 1) orders (lit "b") 2) (lit "users") (lit "c")
      3

both_called : recv three orders (lit "x") ≡ (1, lit "x") ∷ (2, lit "x") ∷ []
unfolding recv sub_recv register create append_handler sub_register new lookup insert str_eq
both_called = refl

-- A registration and a message.
abbrev two : ℕ → Call ℕ
two zero = Call.reg_start orders (lit "a") 1
two (suc zero) = Call.recv_start orders (lit "x")
two (suc (suc n)) = Call.returned

two-Begins : (i : ℕ) → Begins (two i)
two-Begins zero = tt
two-Begins (suc zero) = tt
two-Begins (suc (suc n)) = tt

abbrev five_turns : System ℕ
five_turns = turn 1 (turn 0 (turn 1 (turn 0 (turn 0 (record { store = new; calls = two })))))

received : five_turns.calls 1 ≡ Call.delivered orders (lit "x") ((1, lit "x") ∷ [])
unfolding turn advance new create append_handler sub_register sub_recv lookup insert str_eq
received = refl

Reach-delivered_example : All (IsFor (AskedBy two) orders (lit "x")) ((1, lit "x") ∷ [])
Reach-delivered_example =
    Reach-delivered two {t = five_turns} 1 orders (lit "x") ((1, lit "x") ∷ []) two-Begins
      (next (next (next (next (next here 0) 0) 1) 0) 1) received

-- Two first registrations, in which the second finds no entry either.
abbrev raced : System ℕ
raced =
    run (0 ∷ 1 ∷ 0 ∷ 1 ∷ 0 ∷ 1 ∷ [])
      (two_calls new (Call.reg_start orders (lit "a") 1) (Call.reg_start orders (lit "b") 2))

register_race_example :
    (raced.calls 0 ≡ Call.returned)
    × (raced.calls 1 ≡ Call.returned)
    × (handlers_of raced.store orders ≡ record { id = lit "b"; cb = 2 } ∷ [])
unfolding new lookup
register_race_example = register_race new orders (lit "a") (lit "b") 1 2 refl

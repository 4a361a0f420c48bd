-- ===== src/Client/Sending.antt =====
-- The retries of `send` (client/client.go). The recursion takes fuel; brokers answer by `accepts`.
use native.Mathlib.Nat.{mod-lt, mod-eq_of_lt, mod-add-mod}
use glider_client_go.Common.{
  ℕ, zero, suc, ◌+◌, ◌-◌, ◌%◌, ◌<◌, ◌≤◌, ◌^◌, ◌≡◌, inl, inr, refl, Bool, true, false, List, [], ◌∷◌,
  Option, none, some, arith, length, leb, sym, if◌then◌else◌, get_elem?, Bool-cases, Result, ok,
  err, ◌∙◌, All,
}
use glider_client_go.Broker.Info.{Broker}
use glider_client_go.Client.{Client, ClientError, not_connected, send}
use glider_client_go.Client.Online.{IsConsistent}
use glider_client_go.Client.RoundRobin.{picked, next_broker_pick, next_broker_offline}

-- A result that is success.
abbrev Sent : Option (Result ClientError (Unit {0}) × Client) → Type 0
Sent r = (c' : Client) × (r ≡ some (ok tt, c'))

send_reaches :
    (d fuel : ℕ) (accepts : Broker → Bool) (c : Client) (bk : Broker)
    → IsConsistent c
    → 0 < length c.online_brokers
    → d < fuel
    → c.current_send + d < 2 ^ 64
    → get_elem? c.online_brokers ((c.current_send + d) % length c.online_brokers) ≡ some bk
    → accepts bk ≡ true
    → Sent (send fuel accepts c)
unfolding send
send_reaches d zero accepts c bk v h lt far at good = absurd (omega arith)
send_reaches zero (suc fuel) accepts c bk v h lt far at good =
    let (b, found, step) = next_broker_pick c v h in
    let index : c.current_send + 0 ≡ c.current_send = omega arith in
    let same : b ≡ bk = cc (found, rw index at at) in
    (picked c, rw (step, send) (rw (same, good) refl))
send_reaches (suc d) (suc fuel) accepts c bk v h lt far at good =
    let (b, found, step) = next_broker_pick c v h in
    elim (Bool-cases (accepts b)) [
      | inl taken ↦ (picked c, rw (step, send) (rw taken refl))
      | inr refused ↦
          let index : c.current_send + suc d ≡ (picked c).current_send + d = omega arith in
          let (c', e) =
            send_reaches d fuel accepts (picked c) bk
              (record { flag = v.flag; counter = omega arith }) h (omega arith) (omega arith)
              (rw index at at) good in
          (c', rw (step, send) (rw refused e))
    ]

-- How many picks from the counter `s` on the index `j` comes.
abbrev distance : ℕ → ℕ → ℕ → ℕ
distance s j n = if leb (s % n) j then j - s % n else j + n - s % n

wrap : (j n : ℕ) → j < n → (j + n) % n ≡ j
wrap j n h = grind arith

distance_lem : (s j n : ℕ) → j < n → ((s + distance s j n) % n ≡ j) × (distance s j n < n)
distance_lem s j n h =
    let r : s % n < n = mod-lt s (omega arith) in
    elim (Bool-cases (leb (s % n) j)) [
      | inl le ↦
          rw le (sym (mod-add-mod s n (j - s % n)) ∙ rw (sum le) (mod-eq_of_lt h), ground arith)
      | inr gt ↦
          rw gt (sym (mod-add-mod s n (j + n - s % n)) ∙ rw (sum' gt) (wrap j n h), ground arith)
    ]
  where
    sum : leb (s % n) j ≡ true → s % n + (j - s % n) ≡ j
    sum le = ground arith

    sum' : leb (s % n) j ≡ false → s % n + (j + n - s % n) ≡ j + n
    sum' gt = let r : s % n < n = mod-lt s (omega arith) in omega arith

-- If a broker online accepts the event, `send` succeeds within as many attempts as brokers are
-- online, whichever others refuse it, if the client is consistent and the counter does not wrap
-- around on the way.
pub send_succeeds :
    (accepts : Broker → Bool) (c : Client) (j : ℕ) (bk : Broker)
    → IsConsistent c
    → j < length c.online_brokers
    → get_elem? c.online_brokers j ≡ some bk
    → accepts bk ≡ true
    → c.current_send + length c.online_brokers ≤ 2 ^ 64
    → (c' : Client) × (send (length c.online_brokers) accepts c ≡ some (ok tt, c'))
send_succeeds accepts c j bk v h at good room =
    let n = length c.online_brokers in
    let d = distance c.current_send j n in
    let (index, near) = distance_lem c.current_send j n h in
    send_reaches d n accepts c bk v (omega arith) near (omega arith) (rw index at) good

All-get :
    (P : Broker → Type 0) (bs : List Broker) (i : ℕ) (b : Broker)
    → All P bs
    → get_elem? bs i ≡ some b
    → P b
All-get P [] i b a e = cc
All-get P (x ∷ bs) zero b a e = let same : x ≡ b = cc in rw same at (a.0)
All-get P (x ∷ bs) (suc i) b a e = All-get P bs i b a.1 e

-- If a consistent client has a broker online, and every broker online refuses the event and stays
-- online, `send` never returns, however much fuel it is given: it runs out of it.
pub send_diverges :
    (fuel : ℕ) (accepts : Broker → Bool) (c : Client)
    → IsConsistent c
    → 0 < length c.online_brokers
    → All (λ b. accepts b ≡ false) c.online_brokers
    → send fuel accepts c ≡ none
unfolding send
send_diverges zero accepts c v h all = refl
send_diverges (suc fuel) accepts c v h all =
    let (b, found, step) = next_broker_pick c v h in
    let refused = All-get (λ b. accepts b ≡ false) c.online_brokers _ b all found in
    rw (step, send)
      (rw refused (
        send_diverges fuel accepts (picked c) (record { flag = v.flag; counter = omega arith }) h
          all))

-- With no broker online it returns at once.
send_offline :
    (fuel : ℕ) (accepts : Broker → Bool) (c : Client)
    → IsConsistent c
    → length c.online_brokers ≡ 0
    → send (suc fuel) accepts c ≡ some (err not_connected, c)
unfolding send
send_offline fuel accepts c v h = rw (next_broker_offline c v h, send) refl

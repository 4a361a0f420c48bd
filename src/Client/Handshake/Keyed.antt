-- ===== src/Client/Handshake/Keyed.antt =====
-- What the calls of client/client.go leave of the store and of the online list.
use glider_client_go.Common.{◌≡◌, Bytes, List, [], ◌∷◌, arith, Option-cases}
use glider_client_go.Broker.Info.{Broker}
use glider_client_go.Broker.Store
use glider_client_go.Broker.Store.Laws.{IsKeyed, new-IsKeyed, set-IsKeyed, done_lem}
use glider_client_go.Client.{
  Client, set, delete, connect, reset, begin_owerstaying, add_brokers, start,
}
use glider_client_go.Client.RoundRobin.{next_broker_parts}
use glider_client_go.Client.Handshake.{System, call_reset, decide_signal, done_brokers, Step}

add_brokers-IsKeyed :
    (certs : List (Bytes × Bytes)) (bs : List Broker) (s : Store.Store)
    → IsKeyed s
    → IsKeyed (add_brokers certs bs s)
unfolding add_brokers
add_brokers-IsKeyed certs [] s h = h
add_brokers-IsKeyed certs (bk ∷ bs) s h = add_brokers-IsKeyed certs bs _ (set-IsKeyed s _ h)

start-IsKeyed :
    (c : Client) (response : List Broker) (hostname uuid : Bytes)
    → IsKeyed c.brokers
    → IsKeyed (start c response hostname uuid).brokers
unfolding start
start-IsKeyed c response hostname uuid h = add_brokers-IsKeyed c.certs response c.brokers h

done_brokers-IsKeyed : (c : Client) → IsKeyed c.brokers → IsKeyed (done_brokers c).brokers
unfolding done_brokers
done_brokers-IsKeyed c h = rw (done_lem c.brokers h) new-IsKeyed

connect-brokers : (c : Client) (id : Bytes) → (connect c id).brokers ≡ c.brokers
unfolding connect set
connect-brokers c id = ground (arith, Option-cases (Store.get c.brokers id))

begin_owerstaying-brokers : (c : Client) → (begin_owerstaying c).0.brokers ≡ c.brokers
unfolding begin_owerstaying
begin_owerstaying-brokers c = ground arith

-- In every order of calls each broker of the store stands under its own ID.
pub Step-IsKeyed : {s t : System} → Step s t → IsKeyed s.client.brokers → IsKeyed t.client.brokers
unfolding call_reset reset decide_signal delete
Step-IsKeyed {s} (Step.resets b) h = ground (arith, h)
Step-IsKeyed {s} (Step.deletes id b) h = h
Step-IsKeyed {s} (Step.decides d) h = ground (arith, h)
Step-IsKeyed {s} (Step.connects id b) h = rw (connect-brokers s.client id) h
Step-IsKeyed {s} (Step.expires e) h = h
Step-IsKeyed {s} (Step.cancels e) h = done_brokers-IsKeyed s.client h
Step-IsKeyed {s} (Step.restarts response hostname uuid e) h =
    start-IsKeyed s.client response hostname uuid h
Step-IsKeyed {s} (Step.overstays response hostname uuid b e) h =
    let c = (begin_owerstaying s.client).0 in
    start-IsKeyed (done_brokers c) response hostname uuid
      (done_brokers-IsKeyed c (rw (begin_owerstaying-brokers s.client) h))
Step-IsKeyed {s} (Step.picks r c e) h = ground (arith, next_broker_parts s.client c r e, h)

-- ===== src/Client/Delivery.antt =====
-- An event on its way to a stream: client/client.go (send) over the connections of broker/broker.go
-- (Send) and the message of pub/pub.go (GetEvent). Whether grpc takes a message on a stream is the
-- parameter `stream_sends`. GetEvent is called anew for each broker, with one answer.
mod Examples
use glider_client_go.Common.{
  ℕ, zero, suc, ◌+◌, ◌<◌, ◌≤◌, ◌^◌, ◌≡◌, ◌≢◌, inl, inr, refl, sym, ap, ◌∙◌, Bool, true, false, not,
  List, [], ◌∷◌, Option, none, some, arith, Bytes, length, get_elem?, Option-cases, Bool-cases,
  Result, ok, err, All, if◌then◌else◌,
}
use glider_client_go.Proto.{Message}
use glider_client_go.Metadata.{Heap, message_context}
use glider_client_go.Metadata.Views.{read}
use glider_client_go.Pub.{Pub, get_event, routed, base_message}
use glider_client_go.Pub.Event.{with_typed, get_event_lem}
use glider_client_go.Broker.Info.{Broker}
use glider_client_go.Broker.Connection
use glider_client_go.Broker.Connection.{
  Connection, idle, Sent, disconnected, event_failed, panicked, on_stream,
}
use glider_client_go.Broker.Connection.Safety.{IsMatched, Steps-IsMatched}
use glider_client_go.Client.{Client, ClientError, next_broker, not_connected, send}
use glider_client_go.Client.Online.{IsConsistent}
use glider_client_go.Client.RoundRobin.{picked, next_broker_pick, next_broker_offline}
use glider_client_go.Client.Sending.{send_succeeds, send_diverges}

send_step :
    (fuel : ℕ) (accepts : Broker → Bool) (c d : Client) (b : Broker)
    → next_broker c ≡ some (ok b, d)
    → send (suc fuel) accepts c ≡ (if accepts b then some (ok tt, d) else send fuel accepts d)
unfolding send
send_step fuel accepts c d b e = rw (e, send) refl

send-zero : (accepts : Broker → Bool) (c : Client) → send zero accepts c ≡ none
unfolding send
send-zero accepts c = refl

-- The picks of `nextBroker` that lead from a client to another, each of a broker that refuses.
pub data Refused (accepts : Broker → Bool) : Client → Client → Type 0 where
  none_refused : {c : Client} → Refused accepts c c
  then_refused :
      {c d e : Client} (bk : Broker)
      → next_broker c ≡ some (ok bk, d)
      → accepts bk ≡ false
      → Refused accepts d e
      → Refused accepts c e

-- If `send` succeeds, a broker online has accepted, and those picked before it refused.
send_accepted :
    (fuel : ℕ) (accepts : Broker → Bool) (c c' : Client)
    → IsConsistent c
    → 0 < length c.online_brokers
    → send fuel accepts c ≡ some (ok tt, c')
    → (d : Client) × (i : ℕ) × (bk : Broker) × Refused accepts c d
      × (next_broker d ≡ some (ok bk, c'))
      × (get_elem? c.online_brokers i ≡ some bk)
      × (accepts bk ≡ true)
send_accepted zero accepts c c' v h e = cc (e, send-zero accepts c)
send_accepted (suc fuel) accepts c c' v h e =
    let (b, found, step) = next_broker_pick c v h in
    let sent = sym (send_step fuel accepts c (picked c) b step) ∙ e in
    elim (Bool-cases (accepts b)) [
      | inl taken ↦
          let same : picked c ≡ c' = cc (rw taken at sent) in
          (c, _, b, none_refused, rw (← same) step, found, taken)
      | inr refused ↦
          let (d, i, taker, run, last, there, took) =
            send_accepted fuel accepts (picked c) c'
              (record { flag = v.flag; counter = omega arith }) h (rw refused at sent) in
          (d, i, taker, then_refused b step refused run, last, there, took)
    ]

module _ (stream_sends : Bytes → ℕ → Message → Bool) (conns : Bytes → Connection) where
  -- Whether Broker.Send of the broker returns no error.
  unfoldable pub takes : Option Message → Broker → Bool
  takes event bk = elim (Connection.send (conns bk.id) event) [
    | disconnected ↦ false
    | event_failed ↦ false
    | panicked ↦ false
    | on_stream i msg ↦ stream_sends bk.id i msg
  ]

  takes-none : (bk : Broker) → takes none bk ≡ false
  unfolding takes Connection.send
  takes-none bk = ground (arith, Bool-cases (conns bk.id).connected)

  -- A broker that takes a message has it handed to its stream.
  takes-some :
      (msg : Message) (bk : Broker)
      → IsMatched (conns bk.id)
      → takes (some msg) bk ≡ true
      → (n : ℕ) × ((conns bk.id).stream ≡ some n) × (stream_sends bk.id n msg ≡ true)
  unfolding takes Connection.send
  takes-some msg bk m e = elim (Option-cases (conns bk.id).stream) [
    | inl gone ↦ absurd (ground (arith, gone, m, e))
    | inr (n, there) ↦ (n, there, ground (arith, there, m, e))
  ]

  takes-connected :
      (msg : Message) (bk : Broker)
      → IsMatched (conns bk.id)
      → (conns bk.id).connected ≡ true
      → ((n : ℕ) → stream_sends bk.id n msg ≡ true)
      → takes (some msg) bk ≡ true
  unfolding takes Connection.send
  takes-connected msg bk m up sends = elim (Option-cases (conns bk.id).stream) [
    | inl gone ↦ absurd (ground (arith, gone, m, up))
    | inr (n, there) ↦ ground (arith, there, up, sends n)
  ]

  module _ {ℓ} {T : Type ℓ} (marshal : T → Option Bytes) (h : Heap) (p : Pub T) where
    -- Client.send of an event.
    unfoldable pub send_event : ℕ → Client → Option (Result ClientError (Unit {0}) × Client)
    send_event fuel c = send fuel (takes (get_event marshal h p).1) c

    -- An event that has a message is sent, with an attempt for each broker online: the brokers that
    -- are picked first do not take it, the one that is picked next is online and its stream takes the
    -- message, and that pick leaves the client that `send` answers with. The conditions: one broker
    -- online is connected and its stream takes every message, the connections are ones that the code
    -- can reach, the client is consistent, and its counter does not wrap around on the way.
    pub send_delivers :
        (msg : Message) (c : Client) (j : ℕ) (bk : Broker)
        → ((id : Bytes) → Connection.Steps idle (conns id))
        → (get_event marshal h p).1 ≡ some msg
        → IsConsistent c
        → j < length c.online_brokers
        → get_elem? c.online_brokers j ≡ some bk
        → (conns bk.id).connected ≡ true
        → ((n : ℕ) → stream_sends bk.id n msg ≡ true)
        → c.current_send + length c.online_brokers ≤ 2 ^ 64
        → (c' : Client) × (send_event (length c.online_brokers) c ≡ some (ok tt, c'))
          × ((d : Client) × (i : ℕ) × (taker : Broker) × (n : ℕ) × Refused (takes (some msg)) c d
              × (next_broker d ≡ some (ok taker, c'))
              × (get_elem? c.online_brokers i ≡ some taker)
              × ((conns taker.id).stream ≡ some n)
              × (stream_sends taker.id n msg ≡ true))
    unfolding send_event
    send_delivers msg c j bk reached made v l at up sends room =
        let matched : (id : Bytes) → IsMatched (conns id) =
          λ id. Steps-IsMatched (reached id) refl in
        let (c', sent) =
          send_succeeds (takes (some msg)) c j bk v l at
            (takes-connected msg bk (matched bk.id) up sends) room in
        let (d, i, taker, run, last, found, took) =
          send_accepted (length c.online_brokers) (takes (some msg)) c c' v (omega arith) sent in
        let (n, there, handed) = takes-some msg taker (matched taker.id) took in
        rw made (c', sent, (d, i, taker, n, run, last, found, there, handed))

    -- An event whose typed context cannot be serialised is never sent and never refused, while a
    -- broker is online and the list stays as it is: `send` runs out of any fuel.
    pub unserialisable_diverges :
        (t : T) (fuel : ℕ) (c : Client)
        → message_context p.context ≡ some t
        → marshal t ≡ none
        → IsConsistent c
        → 0 < length c.online_brokers
        → send_event fuel c ≡ none
    unfolding send_event
    unserialisable_diverges t fuel c typed failed v l =
        let no_message : (get_event marshal h p).1 ≡ none =
          get_event_lem marshal h p
          ∙ (ap
                (λ (o : Option T).
                  with_typed marshal (routed (base_message p) (read h p.context)) o)
                typed
              ∙ ground (arith, failed)) in
        rw no_message (send_diverges fuel (takes none) c v l (refused c.online_brokers))
      where
        refused : (bs : List Broker) → All (λ b. takes none b ≡ false) bs
        refused [] = tt
        refused (b ∷ bs) = (takes-none b, refused bs)

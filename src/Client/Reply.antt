-- ===== src/Client/Reply.antt =====
-- A request and its response, end to end: broker/broker.go (handleRecv), client/client.go (Pub,
-- recv), pub/pub.go (GetEvent), callback/callback.go.
use glider_client_go.Common.{
  ◌≡◌, ◌≢◌, refl, ap, subst, ◌∙◌, true, [], Option, some, arith, Bytes, str_eq_iff, str_eq_refl,
}
use glider_client_go.Common.Int.{ℤ}
use glider_client_go.Std.Context.{Context, background}
use glider_client_go.Proto.{Message}
use glider_client_go.Metadata.{Md, Heap, Value, filled}
use glider_client_go.Metadata.Views.{
  read, read-from_recv_new, read-message_from_recv, read-modify, modify,
}
use glider_client_go.Callback
use glider_client_go.Sub
use glider_client_go.Callback.{Callback}
use glider_client_go.Callback.Keys.{NoColon, recv-register}
use glider_client_go.Pub.{get_event}
use glider_client_go.Pub.Event.{Carries, is_routable, get_event_routing}
use glider_client_go.Broker.Receive.{handle_recv}
use glider_client_go.Client.Publish.{client_pub, recv}

-- A request that names where its response goes.
pub record IsRequest (msg : Message) : Type 0 where
  pub is_sub : msg.sub ≡ true
  pub pod : msg.sub_pod ≢ []
  pub module' : msg.sub_module ≢ []
  pub broker : msg.sub_broker ≢ []
  pub project : msg.sub_project ≢ []

pub filled_routable : (md : Md) (msg : Message) → IsRequest msg → is_routable (filled md msg) ≡ true
unfolding filled
filled_routable md msg r = ground (
  arith,
  r.is_sub,
  str_eq_iff msg.sub_pod [],
  str_eq_iff msg.sub_module [],
  str_eq_iff msg.sub_broker [],
  str_eq_iff msg.sub_project [],
)

pub filled_routing :
    (md : Md) (msg : Message)
    → IsRequest msg
    → let f = filled md msg in
      (f.sub_id ≡ msg.id)
      × (f.sub_pod ≡ msg.sub_pod)
      × (f.sub_module ≡ msg.sub_module)
      × (f.sub_broker ≡ msg.sub_broker)
      × (f.sub_project ≡ msg.sub_project)
unfolding filled
filled_routing md msg r = ground (arith, r.is_sub)

module _ {ℓ} {T : Type ℓ} where
  pub read-handle_recv :
      (unmarshal : Bytes → Option T) (h : Heap) (msg : Message)
      → let (h', ctx) = handle_recv unmarshal h msg in
        read h' ctx ≡ filled (read {T = T} h background) msg
  unfolding handle_recv
  read-handle_recv unmarshal h msg =
      read-message_from_recv unmarshal _ _ msg ∙ read-from_recv_new h background msg

  read-client_pub :
      (h : Heap) (pid uuid : Bytes) (now : ℤ) (ctx : Context (Value T)) (name payload : Bytes)
      → let (h', p) = client_pub h pid uuid now ctx name payload in
        read h' p.context ≡ record (read h ctx) { id = uuid }
  unfolding client_pub modify
  read-client_pub h pid uuid now ctx name payload =
      read-modify (λ md. record md { id = uuid }) h ctx

  -- A service that publishes from the context of a request that names its route, whatever the event, answers to it: the
  -- message bears the request's id and route, and is marked as a response.
  pub reply_routing :
      (unmarshal : Bytes → Option T) (marshal : T → Option Bytes) (h : Heap)
      (request reply : Message) (pid uuid name payload : Bytes) (now : ℤ)
      → IsRequest request
      → let (h₁, ctx) = handle_recv unmarshal h request in
        let (h₂, p) = client_pub h₁ pid uuid now ctx name payload in
        (get_event marshal h₂ p).1 ≡ some reply
        → (reply.name ≡ name)
          × (reply.payload ≡ payload)
          × (reply.sub ≡ true)
          × (reply.sub_id ≡ request.id)
          × (reply.sub_pod ≡ request.sub_pod)
          × (reply.sub_module ≡ request.sub_module)
          × (reply.sub_broker ≡ request.sub_broker)
          × (reply.sub_project ≡ request.sub_project)
  unfolding client_pub
  reply_routing unmarshal marshal h request reply pid uuid name payload now r e =
      let (h₁, ctx) = handle_recv unmarshal h request in
      let (h₂, p) = client_pub h₁ pid uuid now ctx name payload in
      let md = filled (read {T = T} h background) request in
      let shown : read h₂ p.context ≡ record md { id = uuid } =
        read-client_pub h₁ pid uuid now ctx name payload
        ∙ ap (λ (m : Md). record m { id = uuid }) (read-handle_recv unmarshal h request) in
      ground (
        arith,
        subst (λ (m : Md). Carries m p reply) shown (get_event_routing marshal h₂ p reply e),
        filled_routable (read {T = T} h background) request r,
        filled_routing (read {T = T} h background) request r,
      )

  -- The whole way of a request that names its route: while the requester waits on a channel for its event and request id, the reply
  -- that a service publishes under that event from the request's context reaches that channel, if
  -- the request id has no colon.
  pub reply_delivered {κ λ'} :
      {Cb : Type κ} {Chan : Type λ'} (unmarshal : Bytes → Option T) (marshal : T → Option Bytes)
      (h : Heap) (request reply : Message) (pid uuid payload : Bytes) (now : ℤ)
      (subs : Sub.Store Cb) (waiting : Callback Chan) (chan : Chan)
      → IsRequest request
      → NoColon request.id
      → let (h₁, ctx) = handle_recv unmarshal h request in
        let (h₂, p) = client_pub h₁ pid uuid now ctx request.name payload in
        (get_event marshal h₂ p).1 ≡ some reply
        → (recv subs (Callback.register waiting request.name request.id chan) reply).1 ≡ some chan
  unfolding recv
  reply_delivered unmarshal marshal h request reply pid uuid payload now subs waiting chan r n e =
      let (name, _, _, id, _, _, _, _) =
        reply_routing unmarshal marshal h request reply pid uuid request.name payload now r e in
      rw (name, id)
        (recv-register waiting request.name request.id request.name request.id chan n n
          ∙ rw (str_eq_refl, str_eq_refl) refl)

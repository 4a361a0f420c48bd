-- ===== src/Client/Replies/Routed.antt =====
-- Where the messages go that a handler publishes (client/client.go, Pub; pub/pub.go, GetEvent).
use glider_client_go.Common.{
  ℕ, ◌≡◌, inl, inr, refl, sym, ap, subst, ◌∙◌, true, List, [], ◌∷◌, Option, some, arith, Bytes,
  str_eq, Option-cases, if◌then◌else◌,
}
use glider_client_go.Common.Int.{ℤ}
use glider_client_go.Std.Context.{Context, background, value, with_value, key_eq}
use glider_client_go.Proto.{Message}
use glider_client_go.Metadata.{
  Md, Heap, Value, store_md, filled, from_recv, meta_from_context, message_with_context,
  message_from_recv,
}
use glider_client_go.Metadata.Views.{
  pointer_of, read, meta_from_context_cases, pointer_of-md_with_context,
}
use glider_client_go.Pub.{Pub, get_event}
use glider_client_go.Pub.Event.{Carries, is_routable, get_event_routing}
use glider_client_go.Broker.Receive.{handle_recv}
use glider_client_go.Client.Publish.{client_pub}
use glider_client_go.Client.Reply.{IsRequest, filled_routable, filled_routing}
use glider_client_go.Client.Replies.{Event, publish, publish_all}

-- The metadata routes to the sender of `request`.
pub record IsRouted (request : Message) (md : Md) : Type 0 where
  pub routable : is_routable md ≡ true
  pub id : md.sub_id ≡ request.id
  pub pod : md.sub_pod ≡ request.sub_pod
  pub module' : md.sub_module ≡ request.sub_module
  pub broker : md.sub_broker ≡ request.sub_broker
  pub project : md.sub_project ≡ request.sub_project

pub filled-IsRouted : (md : Md) (msg : Message) → IsRequest msg → IsRouted msg (filled md msg)
filled-IsRouted md msg r =
    let (id, pod, module'', broker, project) = filled_routing md msg r in
    record {
      routable = filled_routable md msg r;
      id = id;
      pod = pod;
      module' = module'';
      broker = broker;
      project = project;
    }

pub stored :
    (request : Message) (h : Heap) (p : ℕ) (md : Md)
    → IsRouted request md
    → IsRouted request ((store_md h p md).mds p)
stored request h p md v =
    let same : md ≡ (store_md h p md).mds p = ground arith in
    subst (λ (m : Md). IsRouted request m) same v

-- What a message has to be that answers `request`.
abbrev pub Answers : Message → Event → Message → Type 0
Answers request e reply =
    (reply.name ≡ e.name)
    × (reply.payload ≡ e.payload)
    × (reply.sub ≡ true)
    × (reply.sub_id ≡ request.id)
    × (reply.sub_pod ≡ request.sub_pod)
    × (reply.sub_module ≡ request.sub_module)
    × (reply.sub_broker ≡ request.sub_broker)
    × (reply.sub_project ≡ request.sub_project)

module _ {ℓ} {T : Type ℓ} where
  -- The context holds a pointer to metadata that routes to the sender of `request`.
  pub record Holds (request : Message) (h : Heap) (ctx : Context (Value T)) (p : ℕ) : Type ℓ where
    pub pointer : pointer_of ctx ≡ some p
    pub routed : IsRouted request (h.mds p)

  pub meta_from_context-held :
      (h : Heap) (ctx : Context (Value T)) (p : ℕ)
      → pointer_of ctx ≡ some p
      → meta_from_context h ctx ≡ (h, p)
  meta_from_context-held h ctx p e = elim (meta_from_context_cases h ctx) [
    | inl (q, f, m) ↦ let same : q ≡ p = cc in m ∙ ap (λ (x : ℕ). (h, x)) same
    | inr (f, m) ↦ cc
  ]

  pointer_of-message_from_recv :
      (unmarshal : Bytes → Option T) (ctx : Context (Value T)) (msg : Message)
      → pointer_of (message_from_recv unmarshal ctx msg) ≡ pointer_of ctx
  unfolding message_from_recv message_with_context pointer_of value with_value key_eq str_eq
  pointer_of-message_from_recv unmarshal ctx msg = elim (Option-cases msg.context) [
    | inl e ↦ rw (e, message_from_recv) refl
    | inr (raw, e) ↦ elim (Option-cases (unmarshal raw)) [
      | inl u ↦ rw (e, message_from_recv) (rw u refl)
      | inr (t, u) ↦ rw (e, message_from_recv) (rw u refl)
    ]
  ]

  pub handle_recv-Holds :
      (unmarshal : Bytes → Option T) (h : Heap) (request : Message)
      → IsRequest request
      → let (h₁, ctx) = handle_recv unmarshal h request in (p : ℕ) × Holds request h₁ ctx p
  unfolding handle_recv from_recv
  handle_recv-Holds unmarshal h request r =
      let (h₁, p) = meta_from_context h (background {V = Value T}) in
      (
        p,
        record {
          pointer =
              pointer_of-message_from_recv unmarshal _ request
              ∙ pointer_of-md_with_context p background;
          routed = stored request h₁ p _ (filled-IsRouted (h₁.mds p) request r);
        },
      )

  client_pub-Holds :
      (request : Message) (h : Heap) (pid uuid : Bytes) (now : ℤ) (ctx : Context (Value T))
      (name payload : Bytes) (p : ℕ)
      → Holds request h ctx p
      → let (h', event) = client_pub h pid uuid now ctx name payload in
        Holds request h' ctx p × Holds request h' event.context p
  unfolding client_pub
  client_pub-Holds request h pid uuid now ctx name payload p v =
      let md : Md = record (h.mds p) { id = uuid } in
      let kept : IsRouted request md = record {
        routable = v.routed.routable;
        id = v.routed.id;
        pod = v.routed.pod;
        module' = v.routed.module';
        broker = v.routed.broker;
        project = v.routed.project;
      } in
      let routed = stored request h p md kept in
      rw (meta_from_context-held h ctx p v.pointer) (
        record { pointer = v.pointer; routed = routed },
        record { pointer = pointer_of-md_with_context p ctx; routed = routed },
      )

  get_event-held :
      (marshal : T → Option Bytes) (h : Heap) (event : Pub T) (p : ℕ)
      → pointer_of event.context ≡ some p
      → (get_event marshal h event).0 ≡ h
  unfolding get_event
  get_event-held marshal h event p e = rw (meta_from_context-held h event.context p e) refl

  pub publish-Holds :
      (request : Message) (h : Heap) (pid : Bytes) (ctx : Context (Value T)) (e : Event) (p : ℕ)
      → Holds request h ctx p
      → Holds request (publish pid ctx e h).0 ctx p
        × Holds request (publish pid ctx e h).0 (publish pid ctx e h).1.context p
  publish-Holds request h pid ctx e p v =
      client_pub-Holds request h pid e.uuid e.now ctx e.name e.payload p v

  -- The heap after an event is sent.
  pub sent-Holds :
      (marshal : T → Option Bytes) (request : Message) (h : Heap) (pid : Bytes)
      (ctx : Context (Value T)) (e : Event) (p : ℕ)
      → Holds request h ctx p
      → Holds request (get_event marshal (publish pid ctx e h).0 (publish pid ctx e h).1).0 ctx p
  sent-Holds marshal request h pid ctx e p v =
      let (own, event) = publish-Holds request h pid ctx e p v in
      subst (λ (k : Heap). Holds request k ctx p)
        (sym
          (get_event-held marshal (publish pid ctx e h).0 (publish pid ctx e h).1 p event.pointer))
        own

  publish_all-Holds :
      (marshal : T → Option Bytes) (request : Message) (pid : Bytes) (ctx : Context (Value T))
      (es : List Event) (h : Heap) (p : ℕ)
      → Holds request h ctx p
      → Holds request (publish_all marshal pid ctx es h) ctx p
  unfolding publish_all
  publish_all-Holds marshal request pid ctx [] h p v = v
  publish_all-Holds marshal request pid ctx (e ∷ es) h p v =
      publish_all-Holds marshal request pid ctx es _ p (sent-Holds marshal request h pid ctx e p v)

  Carries-Answers :
      (md : Md) (event : Pub T) (e : Event) (request reply : Message)
      → event.name ≡ e.name
      → event.payload ≡ e.payload
      → IsRouted request md
      → Carries md event reply
      → Answers request e reply
  Carries-Answers md event e request reply n b v carried =
      let (_, name, _, payload, _, sub, id, pod, module'', broker, project) = carried in
      let choose : (x : Bytes) → (if is_routable md then x else []) ≡ x = λ x. rw v.routable refl in
      (
        name ∙ n,
        payload ∙ b,
        sub ∙ rw v.routable refl,
        id ∙ choose _ ∙ v.id,
        pod ∙ choose _ ∙ v.pod,
        module'' ∙ choose _ ∙ v.module',
        broker ∙ choose _ ∙ v.broker,
        project ∙ choose _ ∙ v.project,
      )

  pub Holds-Answers :
      (marshal : T → Option Bytes) (request reply : Message) (h : Heap) (pid : Bytes)
      (ctx : Context (Value T)) (e : Event) (p : ℕ)
      → Holds request h ctx p
      → (get_event marshal (publish pid ctx e h).0 (publish pid ctx e h).1).1 ≡ some reply
      → Answers request e reply
  unfolding read
  Holds-Answers marshal request reply h pid ctx e p v sent =
      let (h', event) = publish pid ctx e h in
      let held = (publish-Holds request h pid ctx e p v).1 in
      let shown : read h' event.context ≡ h'.mds p = rw held.pointer refl in
      Carries-Answers (h'.mds p) event e request reply (unfold client_pub in refl)
        (unfold client_pub in refl) held.routed
        (subst (λ (m : Md). Carries m event reply) shown
          (get_event_routing marshal h' event reply sent))

  -- However many events a handler has published before from the context of a request that names its
  -- route, the next one answers the request: the message bears the request's id and route, and is
  -- marked as a response.
  pub replies_routed :
      (unmarshal : Bytes → Option T) (marshal : T → Option Bytes) (h : Heap)
      (request reply : Message) (pid : Bytes) (before : List Event) (e : Event)
      → IsRequest request
      → let (h₁, ctx) = handle_recv unmarshal h request in
        let (h₂, event) = publish pid ctx e (publish_all marshal pid ctx before h₁) in
        (get_event marshal h₂ event).1 ≡ some reply → Answers request e reply
  replies_routed unmarshal marshal h request reply pid before e r sent =
      let (h₁, ctx) = handle_recv unmarshal h request in
      let (p, held) = handle_recv-Holds unmarshal h request r in
      Holds-Answers marshal request reply (publish_all marshal pid ctx before h₁) pid ctx e p
        (publish_all-Holds marshal request pid ctx before h₁ p held) sent

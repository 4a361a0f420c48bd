-- ===== src/Pub/Event.antt =====
-- The message that an event becomes (pub/pub.go, GetEvent).
use glider_client_go.Common.{
  ◌≡◌, inl, inr, sym, ◌∙◌, Bool, true, ◌&&◌, [], Option, none, some, arith, Bytes, if◌then◌else◌,
  Option-cases,
}
use glider_client_go.Proto.{Message}
use glider_client_go.Metadata.{Md, Heap, message_context}
use glider_client_go.Metadata.Views.{read, meta_read}
use glider_client_go.Pub.{Pub, is_set, routed, base_message, get_event}

-- The condition on which the routing fields are copied.
abbrev pub is_routable : Md → Bool
is_routable md =
    md.sub
    && (is_set md.sub_pod
        && (is_set md.sub_module && (is_set md.sub_broker && is_set md.sub_project)))

module _ {ℓ} {T : Type ℓ} where
  -- The typed context of a message: none, or the serialised value.
  abbrev pub with_typed : (T → Option Bytes) → Message → Option T → Option Message
  with_typed marshal msg none = some msg
  with_typed marshal msg (some t) = elim (marshal t) [
    | none ↦ none
    | some raw ↦ some (record msg { context = some raw })
  ]

  -- `GetEvent` reads the metadata that the context shows.
  pub get_event_lem :
      (marshal : T → Option Bytes) (h : Heap) (p : Pub T)
      → (get_event marshal h p).1
        ≡ with_typed marshal
            (routed (base_message p) (read h p.context))
            (message_context p.context)
  unfolding get_event
  get_event_lem marshal h p = elim (Option-cases (message_context p.context)) [
    | inl e ↦ rw (e, get_event) (ground (arith, meta_read h p.context))
    | inr (t, e) ↦ rw (e, get_event) (ground (arith, meta_read h p.context))
  ]

  -- The event's own fields, and the routing of the request as a whole or not at all.
  abbrev pub Carries : Md → Pub T → Message → Type 0
  Carries md p msg =
      (msg.id ≡ p.id)
      × (msg.name ≡ p.name)
      × (msg.project ≡ p.project)
      × (msg.payload ≡ p.payload)
      × (msg.timestamp ≡ p.timestamp)
      × (msg.sub ≡ (if is_routable md then true else p.subscribed))
      × (msg.sub_id ≡ (if is_routable md then md.sub_id else []))
      × (msg.sub_pod ≡ (if is_routable md then md.sub_pod else []))
      × (msg.sub_module ≡ (if is_routable md then md.sub_module else []))
      × (msg.sub_broker ≡ (if is_routable md then md.sub_broker else []))
      × (msg.sub_project ≡ (if is_routable md then md.sub_project else []))

  -- A message that `GetEvent` yields names the event, its project and its payload, and carries the
  -- routing of the request either whole, as the metadata shows it, or not at all.
  pub get_event_routing :
      (marshal : T → Option Bytes) (h : Heap) (p : Pub T) (msg : Message)
      → (get_event marshal h p).1 ≡ some msg
      → Carries (read h p.context) p msg
  unfolding routed base_message
  get_event_routing marshal h p msg e =
      fields (message_context p.context) (sym (get_event_lem marshal h p) ∙ e)
    where
      fields :
          (o : Option T)
          → with_typed marshal (routed (base_message p) (read h p.context)) o ≡ some msg
          → Carries (read h p.context) p msg
      fields none q = ground arith
      fields (some t) q = ground arith

  -- No message that `GetEvent` yields carries an error or a segment, whatever error the metadata of
  -- the context shows.
  pub get_event_no_error :
      (marshal : T → Option Bytes) (h : Heap) (p : Pub T) (msg : Message)
      → (get_event marshal h p).1 ≡ some msg
      → (msg.error ≡ []) × (msg.segment ≡ [])
  unfolding routed base_message
  get_event_no_error marshal h p msg e =
      fields (message_context p.context) (sym (get_event_lem marshal h p) ∙ e)
    where
      fields :
          (o : Option T)
          → with_typed marshal (routed (base_message p) (read h p.context)) o ≡ some msg
          → (msg.error ≡ []) × (msg.segment ≡ [])
      fields none q = ground arith
      fields (some t) q = ground arith

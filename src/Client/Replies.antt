-- ===== src/Client/Replies.antt =====
-- What a handler publishes from the context of a request: several events, and a request of its own
-- (broker/broker.go, handleRecv; client/client.go, Pub; pub/pub.go, Sub and GetEvent). All the
-- contexts involved hold one pointer to the metadata.
pub mod Routed
pub mod Nested
mod Examples
use glider_client_go.Common.{
  ℕ, ◌≡◌, ◌≢◌, inl, inr, refl, sym, ap, subst, ◌∙◌, Bool, true, false, List, [], ◌∷◌, Option, none,
  some, arith, Bytes, str_eq, str_eq_iff, str_eq_refl, Option-cases, if◌then◌else◌, ◌&&◌, ◌==◌,
}
use glider_client_go.Common.Int.{ℤ}
use glider_client_go.Std.Context.{Context, background, value, with_value, key_eq}
use glider_client_go.Proto.{Message}
use glider_client_go.Metadata.{
  Md, Heap, Value, store_md, filled, from_recv, meta_from_context, md_with_context,
  message_with_context, message_from_recv,
}
use glider_client_go.Metadata.Views.{
  pointer_of, read, meta_from_context_cases, pointer_of-md_with_context,
}
use glider_client_go.Callback
use glider_client_go.Callback.{Callback}
use glider_client_go.Callback.Keys.{NoColon, recv-register}
use glider_client_go.Sub
use glider_client_go.Pub.{Pub, Returned, Selected, received, get_event, on_response, after_wait}
use glider_client_go.Pub.Event.{Carries, is_routable, get_event_routing}
use glider_client_go.Broker.Receive.{handle_recv}
use glider_client_go.Client.Publish.{client_pub, recv}
use glider_client_go.Client.Reply.{IsRequest, filled_routable, filled_routing, read-handle_recv}

-- An event that is published: its UUID, the time, its name and its payload.
pub record Event : Type 0 where
  pub uuid : Bytes
  pub now : ℤ
  pub name : Bytes
  pub payload : Bytes

module _ {ℓ} {T : Type ℓ} where
  -- Client.Pub, from the context `ctx` of the pod `pid`.
  abbrev pub publish : Bytes → Context (Value T) → Event → Heap → Heap × Pub T
  publish pid ctx e h = client_pub h pid e.uuid e.now ctx e.name e.payload

  -- The events are published and sent in their order.
  unfoldable pub publish_all :
      (T → Option Bytes) → Bytes → Context (Value T) → List Event → Heap → Heap
  publish_all marshal pid ctx [] h = h
  publish_all marshal pid ctx (e ∷ es) h =
      let (h', event) = publish pid ctx e h in
      publish_all marshal pid ctx es (get_event marshal h' event).0

-- ===== src/Pub/Answer.antt =====
-- A response from the handler that publishes it to the requester that waits for it (pub/pub.go,
-- GetEvent and Sub; message/context.go).
mod Examples
use glider_client_go.Common.{
  ◌≡◌, ◌⊎◌, inl, inr, refl, sym, ap, ◌∙◌, true, [], Option, none, some, arith, Bytes, str_eq,
  str_eq_refl, Option-cases, if◌then◌else◌,
}
use glider_client_go.Std.Context.{Context, with_value, value, key_eq}
use glider_client_go.Proto.{Message}
use glider_client_go.Metadata.{
  Heap, Value, from_recv, md_with_context, message_context, message_with_context,
}
use glider_client_go.Metadata.Views.{read}
use glider_client_go.Pub.{
  Registry, Pub, Returned, Selected, received, get_event, routed, base_message, on_response,
  after_wait, sub,
}
use glider_client_go.Pub.Event.{with_typed, get_event_lem, get_event_routing, get_event_no_error}

-- The typed context that the caller gets: that of the response, or its own.
abbrev pub or_own {ℓ} : {T : Type ℓ} → Option T → Option T → Option T
or_own none own = own
or_own (some t) own = some t

module _ {ℓ} {T : Type ℓ} where
  -- A message without a typed context, or with its serialised value.
  IsTyped : (T → Option Bytes) → Option T → Message → Type ℓ
  IsTyped marshal o msg =
      ((o ≡ none) × (msg.context ≡ none))
      ⊎ ((t : T) × (raw : Bytes) × (o ≡ some t) × (marshal t ≡ some raw) × (msg.context ≡ some raw))

  with_typed-IsTyped :
      (marshal : T → Option Bytes) (p : Pub T) (h : Heap) (o : Option T) (msg : Message)
      → with_typed marshal (routed (base_message p) (read h p.context)) o ≡ some msg
      → IsTyped marshal o msg
  unfolding IsTyped routed base_message
  with_typed-IsTyped marshal p h none msg e = inl (refl, ground (arith, e))
  with_typed-IsTyped marshal p h (some t) msg e = elim (Option-cases (marshal t)) [
    | inl n ↦ absurd (ground (arith, n, e))
    | inr (raw, n) ↦ inr (t, raw, refl, n, ground (arith, n, e))
  ]

  message_context-from_recv :
      (h : Heap) (ctx : Context (Value T)) (msg : Message)
      → message_context (from_recv h ctx msg).1 ≡ message_context ctx
  unfolding from_recv md_with_context message_context value with_value key_eq str_eq
  message_context-from_recv h ctx msg = refl

  message_context-message_with_context :
      (ctx : Context (Value T)) (t : T) → message_context (message_with_context ctx t) ≡ some t
  unfolding message_context message_with_context value with_value key_eq str_eq
  message_context-message_with_context ctx t = refl

-- The caller is given this payload and no error, with a context that shows this typed context.
abbrev pub IsGiven {ℓ κ} :
    {E : Type ℓ} {T : Type κ} → Option T → Bytes → Returned E T → Type (ℓ ⊔ κ)
IsGiven {T} typed payload r =
    (c : Context (Value T)) × (r.context ≡ some c)
    × (r.payload ≡ some payload)
    × (r.error ≡ none)
    × (message_context c ≡ typed)

module _ {ℓ κ} {E : Type ℓ} {T : Type κ} where
  on_response-IsGiven :
      (unmarshal : Bytes → Option T) (marshal : T → Option Bytes) (o : Option T) (h : Heap)
      (ctx : Context (Value T)) (msg : Message)
      → ((t : T) (raw : Bytes) → marshal t ≡ some raw → unmarshal raw ≡ some t)
      → msg.error ≡ []
      → IsTyped marshal o msg
      → IsGiven
          (or_own o (message_context ctx))
          msg.payload
          (on_response {E = E} unmarshal h ctx msg).1
  unfolding IsTyped on_response
  on_response-IsGiven unmarshal marshal o h ctx msg json fine (inl (n, e)) =
      let c = (from_recv h ctx msg).1 in
      (
        c,
        ground (arith, fine, str_eq_refl [], e),
        ground (arith, fine, str_eq_refl [], e),
        ground (arith, fine, str_eq_refl [], e),
        rw n (message_context-from_recv h ctx msg),
      )
  on_response-IsGiven unmarshal marshal o h ctx msg json fine (inr (t, raw, n, m, e)) =
      let c = (from_recv h ctx msg).1 in
      let back = json t raw m in
      (
        message_with_context c t,
        ground (arith, fine, str_eq_refl [], e, back),
        ground (arith, fine, str_eq_refl [], e, back),
        ground (arith, fine, str_eq_refl [], e, back),
        rw n (message_context-message_with_context c t),
      )

module _ {ℓ κ λ' μ} {E : Type ℓ} {T : Type κ} {Chan : Type λ'} {S : Type μ}
    (registry : Registry S Chan) where
  sub-received :
      (unmarshal : Bytes → Option T) (send_func : Pub T → S → S × Option E)
      (wait : S → S × Selected E) (chan : Chan) (h : Heap) (callbacks : S) (event : Bytes)
      (p : Pub T) (msg : Message)
      → let sent =
          send_func
            (record p { subscribed = true })
            (registry.register callbacks event p.id chan) in
        sent.1 ≡ none
        → (wait sent.0).1 ≡ received msg
        → (sub registry unmarshal send_func wait chan h callbacks event p).2
          ≡ (on_response {E = E} unmarshal h p.context msg).1
  unfolding sub after_wait
  sub-received unmarshal send_func wait chan h callbacks event p msg sent took =
      rw (sent, sub) (rw took refl)

  -- From the handler that answers to the requester: if a message that a handler publishes is what the
  -- requester's `Sub` receives, after a send without an error, `Sub` returns the payload that was
  -- published and no error, whatever error the handler had set, and a context that shows the typed
  -- context that the handler published with, or the requester's own if it had none. Of the JSON it is
  -- assumed that what is serialised reads as the same value.
  pub sub_returns_answer :
      (unmarshal : Bytes → Option T) (marshal : T → Option Bytes)
      (send_func : Pub T → S → S × Option E) (wait : S → S × Selected E) (chan : Chan)
      (own heap : Heap) (callbacks : S) (event : Bytes) (p answer : Pub T) (msg : Message)
      → ((t : T) (raw : Bytes) → marshal t ≡ some raw → unmarshal raw ≡ some t)
      → (get_event marshal heap answer).1 ≡ some msg
      → (send_func (record p { subscribed = true }) (registry.register callbacks event p.id chan)).1
        ≡ none
      → (wait
          (send_func
            (record p { subscribed = true })
            (registry.register callbacks event p.id chan)).0).1
        ≡ received msg
      → IsGiven
          (or_own (message_context answer.context) (message_context p.context))
          answer.payload
          (sub registry unmarshal send_func wait chan own callbacks event p).2
  sub_returns_answer unmarshal marshal send_func wait chan own heap callbacks event p answer msg
        json made sent took =
      let (_, _, _, payload, _, _, _, _, _, _, _) =
        get_event_routing marshal heap answer msg made in
      let typed =
        with_typed-IsTyped marshal answer heap (message_context answer.context) msg
          (sym (get_event_lem marshal heap answer) ∙ made) in
      rw (sub-received unmarshal send_func wait chan own callbacks event p msg sent took, ← payload)
        (on_response-IsGiven unmarshal marshal (message_context answer.context) own p.context msg
          json (get_event_no_error marshal heap answer msg made).0 typed)

-- ===== src/Pub/Wait.antt =====
-- The wait for a response (pub/pub.go, Sub).
use glider_client_go.Common.{
  ap, ◌≡◌, ◌⊎◌, inl, inr, refl, ◌∙◌, true, [], Option, none, some, arith, Bytes, str_eq,
  Option-cases, Bool-cases,
}
use glider_client_go.Std.Context.{Context}
use glider_client_go.Proto.{Message}
use glider_client_go.Metadata.{Heap, Value, from_recv, filled, message_with_context}
use glider_client_go.Metadata.Views.{read, read-from_recv_new, read-typed}
use glider_client_go.Pub.{
  Registry, Pub, PubError, json_failed, remote, other, Selected, received, cancelled, on_response,
  after_wait, sub,
}

-- What is promised of the registered channels: `recv` finds the channel that was registered last under
-- an event and an ID, and none once it is unregistered, for the IDs that `IsKey` allows.
pub record IsLawful {ℓ κ} {S : Type ℓ} {Chan : Type κ} (registry : Registry S Chan)
    (recv : S → Bytes → Bytes → Option Chan) (IsKey : Bytes → Type 0) : Type (ℓ ⊔ κ) where
  pub registered :
      (s : S) (event id : Bytes) (chan : Chan)
      → IsKey id
      → recv (registry.register s event id chan) event id ≡ some chan
  pub unregistered :
      (s : S) (event id : Bytes) → IsKey id → recv (registry.unregister s event id) event id ≡ none

module _ {ℓ κ λ' μ} {E : Type ℓ} {T : Type κ} {Chan : Type λ'} {S : Type μ}
    (registry : Registry S Chan) (recv : S → Bytes → Bytes → Option Chan) (IsKey : Bytes → Type 0)
    (lawful : IsLawful registry recv IsKey) where
  after_wait-unregisters :
      (unmarshal : Bytes → Option T) (h : Heap) (event : Bytes) (p : Pub T) (left : S)
      (s : Selected E)
      → IsKey p.id
      → recv (after_wait registry unmarshal h event p left s).1 event p.id ≡ none
  unfolding after_wait
  after_wait-unregisters unmarshal h event p left (cancelled e) n =
      lawful.unregistered left event p.id n
  after_wait-unregisters unmarshal h event p left (received msg) n =
      lawful.unregistered left event p.id n

  module _ (unmarshal : Bytes → Option T) (send_func : Pub T → S → S × Option E)
      (wait : S → S × Selected E) (chan : Chan) (h : Heap) (callbacks : S) (event : Bytes)
      (p : Pub T) where
    sub-unregisters :
        IsKey p.id
        → recv (sub registry unmarshal send_func wait chan h callbacks event p).1 event p.id ≡ none
    unfolding sub
    sub-unregisters n = elim (Option-cases failure) [
      | inl e ↦ rw (e, sub) (after_wait-unregisters unmarshal h event p _ _ n)
      | inr (x, e) ↦ rw (e, sub) (lawful.unregistered _ event p.id n)
    ]
      where
        failure : Option E
        failure =
            (send_func (record p { subscribed = true })
              (registry.register callbacks event p.id chan)).1

    -- For every registry that keeps its promise, and a request whose ID it allows: `Sub` calls the
    -- transport only while the channel is found under the event and the request, so that two
    -- transports that agree there give one result; and on every path (a failed send, the end of the
    -- context, a response or a bad one) it leaves no channel there, whatever was registered meanwhile.
    pub sub_waits :
        (other_send : Pub T → S → S × Option E)
        → IsKey p.id
        → ((q : Pub T) (s : S) → recv s event p.id ≡ some chan → send_func q s ≡ other_send q s)
        → (sub registry unmarshal send_func wait chan h callbacks event p
            ≡ sub registry unmarshal other_send wait chan h callbacks event p)
          × (recv (sub registry unmarshal send_func wait chan h callbacks event p).1 event p.id
              ≡ none)
    unfolding sub
    sub_waits other_send n agree = (
      ap
          (λ (sent : S × Option E).
            sub registry unmarshal (λ q s. sent) wait chan h callbacks event p)
          (agree (record p { subscribed = true }) (registry.register callbacks event p.id chan)
            (lawful.registered callbacks event p.id chan n)),
      sub-unregisters n,
    )

    -- A failed send ends the call with its error: the wait is not entered.
    sub_failed_send :
        (e : E)
        → (send_func
            (record p { subscribed = true })
            (registry.register callbacks event p.id chan)).1
          ≡ some e
        → (sub registry unmarshal send_func wait chan h callbacks event p).2
          ≡ record { context = none; payload = none; error = some (other e) }
    unfolding sub
    sub_failed_send e q = rw (q, sub) refl

module _ {ℓ κ} (E : Type ℓ) {T : Type κ} where
  -- Every response hands the caller a context that shows the metadata of the given one filled from
  -- the message, on the error paths too, and either a payload or an error, never both.
  on_response-read :
      (unmarshal : Bytes → Option T) (h : Heap) (ctx : Context (Value T)) (msg : Message)
      → let (h', r) = on_response {E = E} unmarshal h ctx msg in
        (c : Context (Value T)) × (r.context ≡ some c)
        × (read h' c ≡ filled (read h ctx) msg)
        × (((r.error ≡ none) × (r.payload ≡ some msg.payload))
            ⊎ ((e : PubError E) × (r.error ≡ some e) × (r.payload ≡ none)))
  unfolding on_response
  on_response-read unmarshal h ctx msg =
      let c = (from_recv h ctx msg).1 in
      let shown = read-from_recv_new h ctx msg in
      elim (Bool-cases (str_eq msg.error [])) [
        | inr failed ↦ (
          c,
          ground (arith, failed),
          shown,
          inr (remote msg.error, ground (arith, failed), ground (arith, failed)),
        )
        | inl fine ↦ elim (Option-cases msg.context) [
          | inl e ↦ (
            c,
            ground (arith, fine, e),
            shown,
            inl (ground (arith, fine, e), ground (arith, fine, e)),
          )
          | inr (raw, e) ↦ elim (Option-cases (unmarshal raw)) [
            | inl u ↦ (
              c,
              ground (arith, fine, e, u),
              shown,
              inr (json_failed, ground (arith, fine, e, u), ground (arith, fine, e, u)),
            )
            | inr (t, u) ↦ (
              message_with_context c t,
              ground (arith, fine, e, u),
              read-typed _ c t ∙ shown,
              inl (ground (arith, fine, e, u), ground (arith, fine, e, u)),
            )
          ]
        ]
      ]

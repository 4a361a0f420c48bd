-- ===== src/Client/Subscriptions.antt =====
-- client/client.go: Sub, and the end of its context, in any sequence of such events. `id` is the
-- identifier that the store draws.
use glider_client_go.Common.{
  ◌≡◌, refl, ◌∙◌, ap, List, [], ◌∷◌, ◌++◌, map, Bytes, str_eq, if◌then◌else◌,
}
use glider_client_go.Common.Maps.{lookup}
use glider_client_go.Sub.{Handler, Store, new, register, unregister, recv, others}
use glider_client_go.Sub.Refine.{
  handlers_of, IsWf, new-IsWf, register-IsWf, unregister-IsWf, handlers_of-register,
  handlers_of-unregister, recv-handlers_of,
}

module _ {ℓ} (Cb : Type ℓ) where
  -- A call of `Sub` for an event, or the end of the context that a call was given.
  pub data Subscription : Type ℓ where
    subscribed : (name id : Bytes) → Cb → Subscription
    context_done : (name id : Bytes) → Subscription

module _ {ℓ} {Cb : Type ℓ} where
  unfoldable pub client_sub : Store Cb → Subscription Cb → Store Cb
  client_sub s (subscribed name id cb) = register s name id cb
  client_sub s (context_done name id) = unregister s name id

  unfoldable pub client_subs : Store Cb → List (Subscription Cb) → Store Cb
  client_subs s [] = s
  client_subs s (e ∷ es) = client_subs (client_sub s e) es

  -- What the events mean for the handlers of the event `m`, with no store at all.
  unfoldable pub subscribers :
      Bytes → List (Handler Cb) → List (Subscription Cb) → List (Handler Cb)
  subscribers m hs [] = hs
  subscribers m hs (subscribed name id cb ∷ es) =
      subscribers m (if str_eq name m then hs ++ record { id = id; cb = cb } ∷ [] else hs) es
  subscribers m hs (context_done name id ∷ es) =
      subscribers m (if str_eq name m then others id hs else hs) es

  handlers_of-client_subs :
      (m : Bytes) (es : List (Subscription Cb)) (s : Store Cb)
      → IsWf s
      → handlers_of (client_subs s es) m ≡ subscribers m (handlers_of s m) es
  unfolding client_subs subscribers client_sub
  handlers_of-client_subs m [] s wf = refl
  handlers_of-client_subs m (subscribed name id cb ∷ es) s wf =
      handlers_of-client_subs m es (register s name id cb) (register-IsWf s name id cb wf)
      ∙ ap (λ hs. subscribers m hs es) (handlers_of-register s name id m cb wf)
  handlers_of-client_subs m (context_done name id ∷ es) s wf =
      handlers_of-client_subs m es (unregister s name id) (unregister-IsWf s name id wf)
      ∙ ap (λ hs. subscribers m hs es) (handlers_of-unregister s name id m wf)

  handlers_of-new : (m : Bytes) → handlers_of (new {Cb = Cb}) m ≡ []
  unfolding handlers_of new lookup
  handlers_of-new m = refl

  -- After any sequence of subscriptions and ends of their contexts, a message goes to exactly those
  -- handlers that were subscribed to its event and not ended since, in the order of subscription.
  pub recv-client_subs :
      (es : List (Subscription Cb)) (m payload : Bytes)
      → recv (client_subs new es) m payload ≡ map (λ h. (h.cb, payload)) (subscribers m [] es)
  recv-client_subs es m payload =
      recv-handlers_of (client_subs new es) m payload
      ∙ ap (λ hs. map (λ h. (h.cb, payload)) hs)
          (handlers_of-client_subs m es new new-IsWf
            ∙ ap (λ hs. subscribers m hs es) (handlers_of-new m))

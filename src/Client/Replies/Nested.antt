-- ===== src/Client/Replies/Nested.antt =====
-- A handler that makes a request of its own from the context of a request (pub/pub.go, Sub).
use glider_client_go.Common.{
  ℕ, ◌≡◌, ◌≢◌, refl, ◌∙◌, Option, none, some, arith, Bytes, str_eq_iff, str_eq_refl,
}
use glider_client_go.Std.Context.{Context}
use glider_client_go.Proto.{Message}
use glider_client_go.Metadata.{Heap, Value, from_recv}
use glider_client_go.Metadata.Views.{pointer_of}
use glider_client_go.Common.Maps.{lookup}
use glider_client_go.Callback
use glider_client_go.Callback.{Callback}
use glider_client_go.Callback.Keys.{NoColon, recv-register}
use glider_client_go.Sub
use glider_client_go.Pub.{Selected, received, get_event, on_response, after_wait}
use glider_client_go.Broker.Receive.{handle_recv}
use glider_client_go.Client.Publish.{callbacks, recv}
use glider_client_go.Client.Reply.{IsRequest}
use glider_client_go.Client.Replies.{Event, publish}
use glider_client_go.Client.Replies.Routed.{
  filled-IsRouted, stored, Answers, Holds, meta_from_context-held, handle_recv-Holds, publish-Holds,
  sent-Holds, Holds-Answers,
}

module _ {ℓ} {T : Type ℓ} where
  from_recv-Holds :
      (request response : Message) (h : Heap) (ctx own : Context (Value T)) (p : ℕ)
      → IsRequest response
      → Holds request h ctx p
      → pointer_of own ≡ some p
      → Holds response (from_recv h own response).0 ctx p
  unfolding from_recv
  from_recv-Holds request response h ctx own p r v e =
      rw (meta_from_context-held h own p e) record {
        pointer = v.pointer;
        routed = stored response h p _ (filled-IsRouted (h.mds p) response r);
      }

  -- The heap after a request `e` was published from `ctx` and answered with `response`.
  unfoldable pub asked {κ λ'} :
      (E : Type κ) {Chan : Type λ'}
      → (Bytes → Option T)
      → (T → Option Bytes)
      → Bytes
      → Context (Value T)
      → Event
      → Bytes
      → Callback Chan
      → Message
      → Heap
      → Heap
  asked E unmarshal marshal pid ctx e event left response h =
      let (h₁, p) = publish pid ctx e h in
      let h₂ = (get_event marshal h₁ p).0 in
      let s : Selected E = received response in (after_wait callbacks unmarshal h₂ event p left s).0

  asked-Holds {κ λ'} :
      (E : Type κ) {Chan : Type λ'} (unmarshal : Bytes → Option T) (marshal : T → Option Bytes)
      (pid : Bytes) (ctx : Context (Value T)) (e : Event) (event : Bytes) (left : Callback Chan)
      (request response : Message) (h : Heap) (p : ℕ)
      → IsRequest response
      → Holds request h ctx p
      → Holds response (asked E unmarshal marshal pid ctx e event left response h) ctx p
  unfolding asked after_wait on_response
  asked-Holds E unmarshal marshal pid ctx e event left request response h p r v =
      from_recv-Holds request response _ ctx _ p r (sent-Holds marshal request h pid ctx e p v)
        (publish-Holds request h pid ctx e p v).1.pointer

  -- A handler that makes a request of its own from the context of the request it handles, and gets a
  -- response that names a route, as responses do, answers that response from then on: what it
  -- publishes from its context under the name of the first request bears the id and the route of the
  -- response, and does not reach the first requester, if the two ids differ and have no colon.
  pub nested_request_misroutes {κ λ' μ} :
      (E : Type κ) {Chan : Type λ'} {Cb : Type μ} (unmarshal : Bytes → Option T)
      (marshal : T → Option Bytes) (h : Heap) (request response final : Message) (pid : Bytes)
      (e answer : Event) (event : Bytes) (left : Callback Chan) (subs : Sub.Store Cb) (chan : Chan)
      → IsRequest request
      → IsRequest response
      → NoColon request.id
      → NoColon response.id
      → request.id ≢ response.id
      → answer.name ≡ request.name
      → let (h₁, ctx) = handle_recv unmarshal h request in
        let h₂ = asked E unmarshal marshal pid ctx e event left response h₁ in
        let (h₃, p) = publish pid ctx answer h₂ in
        (get_event marshal h₃ p).1 ≡ some final
        → Answers response answer final
          × ((recv subs (Callback.register Callback.new request.name request.id chan) final).1
              ≡ none)
  unfolding recv
  nested_request_misroutes E {Chan} unmarshal marshal h request response final pid e answer event
        left subs chan r r' n n' d named sent =
      let (h₁, ctx) = handle_recv unmarshal h request in
      let (p, held) = handle_recv-Holds unmarshal h request r in
      let answers =
        Holds-Answers marshal response final
          (asked E unmarshal marshal pid ctx e event left response h₁) pid ctx answer p
          (asked-Holds E unmarshal marshal pid ctx e event left request response h₁ p r' held)
          sent in
      let (name, _, _, id, _, _, _, _) = answers in
      (
        answers,
        rw (name ∙ named, id)
            (recv-register (Callback.new {Chan = Chan}) request.name request.id request.name
                response.id chan n n'
              ∙ ground (
                arith,
                str_eq_refl request.name,
                str_eq_iff request.id response.id,
                d,
                none_registered,
              )),
      )
    where
      none_registered : Callback.recv (Callback.new {Chan = Chan}) request.name response.id ≡ none
      none_registered = unfold Callback.recv Callback.new lookup in refl

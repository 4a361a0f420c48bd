-- ===== src/Client/Replies/Examples.antt =====
-- The theorems on what a handler publishes, at inputs: a request for "order", from whose context the
-- handler first asks for "user".
use glider_client_go.Common.{
  ℕ, ◌≡◌, ◌≢◌, refl, true, [], ◌∷◌, Option, none, some, arith, Bytes, lit, str_eq,
}
use glider_client_go.Common.Int.{pos}
use glider_client_go.Std.Context.{background, with_value, value, key_eq}
use glider_client_go.Proto.{Message}
use glider_client_go.Metadata.{
  Heap, empty_md, filled, from_recv, meta_from_context, md_with_context, message_context,
  message_from_recv,
}
use glider_client_go.Sub
use glider_client_go.Callback
use glider_client_go.Pub.{get_event, routed, base_message, after_wait, on_response}
use glider_client_go.Broker.Receive.{handle_recv}
use glider_client_go.Client.Publish.{client_pub, recv}
use glider_client_go.Client.Reply.{IsRequest}
use glider_client_go.Client.Replies.{Event, publish, publish_all}
use glider_client_go.Client.Replies.Routed.{Answers, replies_routed}
use glider_client_go.Client.Replies.Nested.{asked, nested_request_misroutes}

abbrev message : Bytes → Bytes → Bytes → Message
message id name pod = record {
  id = id;
  name = name;
  project = lit "root";
  segment = [];
  payload = lit "{}";
  sub = true;
  sub_id = [];
  sub_pod = pod;
  sub_module = lit "shop";
  sub_broker = lit "a";
  sub_project = lit "root";
  error = [];
  context = none;
  timestamp = pos 5;
}

abbrev request : Message
request = message (lit "req1") (lit "order") (lit "pod1")

-- The answer to the handler's own request, on pod2.
abbrev response : Message
response = message (lit "res7") (lit "user") (lit "pod2")

message-IsRequest : (id name pod : Bytes) → pod ≢ [] → IsRequest (message id name pod)
message-IsRequest id name pod e = record {
  is_sub = refl;
  pod = e;
  module' = λ q. cc;
  broker = λ q. cc;
  project = λ q. cc;
}

abbrev no_heap : Heap
no_heap = record { mds = λ _. empty_md; fresh = 0 }

abbrev no_json : Bytes → Option ℕ
no_json b = none

abbrev no_marshal : ℕ → Option Bytes
no_marshal n = none

abbrev log_event : Event
log_event = record { uuid = lit "u1"; now = pos 6; name = lit "log"; payload = [] }

abbrev order : Event
order = record { uuid = lit "u2"; now = pos 9; name = lit "order"; payload = lit "ok" }

-- The message of `order`, with the id and the pod that it is sent to.
abbrev reply_to : Bytes → Bytes → Message
reply_to sub_id pod = record (message (lit "u2") (lit "order") pod) {
  project = [];
  payload = lit "ok";
  sub_id = sub_id;
  timestamp = pos 9;
}

reply_lem :
    let (h₁, ctx) = handle_recv no_json no_heap request in
    let (h₂, p) =
      publish
        (lit "pod2")
        ctx
        order
        (publish_all no_marshal (lit "pod2") ctx (log_event ∷ log_event ∷ []) h₁) in
    (get_event no_marshal h₂ p).1 ≡ some (reply_to (lit "req1") (lit "pod1"))
unfolding handle_recv client_pub get_event from_recv meta_from_context md_with_context
    message_context message_from_recv filled routed base_message background with_value value key_eq
    str_eq publish_all
reply_lem = refl

replies_routed_example : Answers request order (reply_to (lit "req1") (lit "pod1"))
replies_routed_example =
    replies_routed no_json no_marshal no_heap request (reply_to (lit "req1") (lit "pod1"))
      (lit "pod2") (log_event ∷ log_event ∷ []) order
      (message-IsRequest (lit "req1") (lit "order") (lit "pod1") (λ e. cc)) reply_lem

misrouted_lem :
    let (h₁, ctx) = handle_recv no_json no_heap request in
    let h₂ =
      asked ℕ {Chan = ℕ} no_json no_marshal
        (lit "pod2")
        ctx
        log_event
        (lit "user")
        Callback.new
        response
        h₁ in
    let (h₃, p) = publish (lit "pod2") ctx order h₂ in
    (get_event no_marshal h₃ p).1 ≡ some (reply_to (lit "res7") (lit "pod2"))
unfolding handle_recv client_pub get_event from_recv meta_from_context md_with_context
    message_context message_from_recv filled routed base_message background with_value value key_eq
    str_eq asked after_wait on_response
misrouted_lem = refl

nested_request_misroutes_example :
    Answers response order (reply_to (lit "res7") (lit "pod2"))
    × ((recv {Chan = ℕ}
          (Sub.new {Cb = ℕ})
          (Callback.register Callback.new (lit "order") (lit "req1") 7)
          (reply_to (lit "res7") (lit "pod2"))).1
        ≡ none)
nested_request_misroutes_example =
    nested_request_misroutes ℕ no_json no_marshal no_heap request response
      (reply_to (lit "res7") (lit "pod2")) (lit "pod2") log_event order (lit "user") Callback.new
      Sub.new 7 (message-IsRequest (lit "req1") (lit "order") (lit "pod1") (λ e. cc))
      (message-IsRequest (lit "res7") (lit "user") (lit "pod2") (λ e. cc))
      (omega arith, (omega arith, (omega arith, (omega arith, tt))))
      (omega arith, (omega arith, (omega arith, (omega arith, tt)))) (λ e. ground (arith, e)) refl
      misrouted_lem

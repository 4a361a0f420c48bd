-- ===== src/Client/Examples.antt =====
-- Tests of client/client.go, and its theorems at inputs: three brokers online.
use glider_client_go.Common.{
  ℕ, ◌≡◌, refl, true, false, [], ◌∷◌, Option, none, some, arith, Bytes, lit, str_eq,
}
use glider_client_go.Common.Int.{pos}
use glider_client_go.Std.Context.{background, with_value, value, key_eq}
use glider_client_go.Proto.{Message}
use glider_client_go.Metadata.{
  Heap, empty_md, filled, from_recv, meta_from_context, md_with_context, message_context,
  message_from_recv,
}
use glider_client_go.Sub
use glider_client_go.Callback
use glider_client_go.Pub.{get_event, routed, base_message}
use glider_client_go.Broker.Info.{Broker}
use glider_client_go.Broker.Store
use glider_client_go.Broker.Receive.{handle_recv}
use glider_client_go.Client.{Client, set, set_loop, without}
use glider_client_go.Client.Online.{IsConsistent}
use glider_client_go.Client.RoundRobin.{picks, picks_cycle}
use glider_client_go.Client.Handshake.{Goroutine, System, Steps, reset_deadlock}
use glider_client_go.Client.Subscriptions.{
  Subscription, subscribed, context_done, client_subs, subscribers, recv-client_subs,
}
use glider_client_go.Common.{map, List}
use glider_client_go.Client.Publish.{client_pub, recv}
use glider_client_go.Client.Reply.{IsRequest, reply_delivered}

abbrev shard : Bytes → Broker
shard id = record { id = id; host = lit "h"; port = pos 443; insecure = false; cert_path = [] }

abbrev three_online : Client
three_online = record {
  pid = lit "pod";
  certs = [];
  brokers = Store.new;
  current_send = 0;
  online_brokers = shard (lit "a") ∷ shard (lit "b") ∷ shard (lit "c") ∷ [];
  online = true;
  reset_process = false;
  overstay_process = false;
}

three_online-IsConsistent : IsConsistent three_online
three_online-IsConsistent = record { flag = refl; counter = omega arith }

picks_cycle_example : picks 3 three_online ≡ three_online.online_brokers
picks_cycle_example = picks_cycle three_online three_online-IsConsistent refl (omega arith)

-- A fourth broker connects: the list holds it four times, and none of the others.
d_replaces_all :
    (set three_online (shard (lit "d"))).online_brokers
    ≡ shard (lit "d") ∷ shard (lit "d") ∷ shard (lit "d") ∷ shard (lit "d") ∷ []
unfolding set set_loop str_eq
d_replaces_all = refl

abbrev asked : Message
asked = record {
  id = lit "req1";
  name = lit "order";
  project = lit "root";
  segment = [];
  payload = lit "{}";
  sub = true;
  sub_id = [];
  sub_pod = lit "pod";
  sub_module = lit "shop";
  sub_broker = lit "a";
  sub_project = lit "root";
  error = [];
  context = none;
  timestamp = pos 5;
}

asked-IsRequest : IsRequest asked
asked-IsRequest = record {
  is_sub = refl;
  pod = λ e. cc;
  module' = λ e. cc;
  broker = λ e. cc;
  project = λ e. cc;
}

abbrev no_heap : Heap
no_heap = record { mds = λ _. empty_md; fresh = 0 }

abbrev no_json : Bytes → Option ℕ
no_json b = none

abbrev no_marshal : ℕ → Option Bytes
no_marshal n = none

abbrev answer : Message
answer = record {
  id = lit "u1";
  name = lit "order";
  project = [];
  segment = [];
  payload = lit "ok";
  sub = true;
  sub_id = lit "req1";
  sub_pod = lit "pod";
  sub_module = lit "shop";
  sub_broker = lit "a";
  sub_project = lit "root";
  error = [];
  context = none;
  timestamp = pos 9;
}

answer_lem :
    let (h₁, ctx) = handle_recv no_json no_heap asked in
    let (h₂, p) = client_pub h₁ (lit "pod2") (lit "u1") (pos 9) ctx (lit "order") (lit "ok") in
    (get_event no_marshal h₂ p).1 ≡ some answer
unfolding handle_recv client_pub get_event from_recv meta_from_context md_with_context
    message_context message_from_recv filled routed base_message background with_value value key_eq
    str_eq
answer_lem = refl

reply_delivered_example :
    (recv {Chan = ℕ}
      (Sub.new {Cb = ℕ})
      (Callback.register Callback.new (lit "order") (lit "req1") 7)
      answer).1
    ≡ some 7
reply_delivered_example =
    reply_delivered no_json no_marshal no_heap asked answer (lit "pod2") (lit "u1") (lit "ok")
      (pos 9) Sub.new Callback.new 7 asked-IsRequest
      (omega arith, (omega arith, (omega arith, (omega arith, tt)))) answer_lem

-- A reset is under way, and one broker online.
abbrev resetting : System
resetting = record {
  client = record three_online { online_brokers = shard (lit "a") ∷ []; reset_process = true };
  goroutine = Goroutine.selecting;
  deciding = 0;
  blocked = 0;
}

only_a : without (lit "a") resetting.client.online_brokers ≡ []
unfolding str_eq
only_a = refl

reset_deadlock_example :
    (t : System) × Steps resetting t × ((u : System) → Steps t u → u.client.online ≡ false)
reset_deadlock_example = reset_deadlock resetting (lit "a") refl refl refl only_a

abbrev subscriptions : List (Subscription ℕ)
subscriptions =
    subscribed (lit "order") (lit "a") 1
    ∷ subscribed (lit "order") (lit "b") 2
    ∷ context_done (lit "order") (lit "a")
    ∷ []

only_b : subscribers (lit "order") [] subscriptions ≡ record { id = lit "b"; cb = 2 } ∷ []
unfolding subscribers str_eq
only_b = refl

recv-client_subs_example :
    Sub.recv (client_subs Sub.new subscriptions) (lit "order") (lit "x")
    ≡ map (λ h. (h.cb, lit "x")) (subscribers (lit "order") [] subscriptions)
recv-client_subs_example = recv-client_subs subscriptions (lit "order") (lit "x")

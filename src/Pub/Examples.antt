-- ===== src/Pub/Examples.antt =====
-- Tests of pub/pub.go, and its theorems at inputs. A channel is a number, an error too.
use glider_client_go.Common.{ℕ, ◌≡◌, refl, true, false, [], Option, none, some, Bytes, lit, str_eq}
use glider_client_go.Common.Int.{pos}
use glider_client_go.Std.Context.{background, with_value, value, key_eq}
use glider_client_go.Proto.{Message}
use glider_client_go.Metadata.{Md, Heap, meta_from_context, md_with_context, message_context}
use glider_client_go.Common.{arith}
use glider_client_go.Callback
use glider_client_go.Callback.{Callback}
use glider_client_go.Callback.Keys.{NoColon}
use glider_client_go.Client.Publish.{callbacks, callbacks-IsLawful}
use glider_client_go.Pub.Wait.{sub_waits}
use glider_client_go.Pub.{Selected, received, sub, Pub, get_event, routed, base_message}

-- The metadata of a request, with an error set.
abbrev request_md : Md
request_md = record {
  id = lit "r";
  project = lit "root";
  segment = lit "s";
  sub = true;
  sub_id = lit "r";
  sub_pod = lit "pod";
  sub_module = lit "shop";
  sub_broker = lit "a";
  sub_project = lit "root";
  error = some (lit "bad");
}

abbrev heap : Heap
heap = record { mds = λ _. request_md; fresh = 1 }

abbrev event : Pub ℕ
event = record {
  id = lit "e1";
  pid = lit "pod2";
  name = lit "order";
  project = [];
  payload = lit "ok";
  context = md_with_context 0 background;
  timestamp = pos 3;
  subscribed = false;
}

abbrev no_marshal : ℕ → Option Bytes
no_marshal n = none

abbrev sent : Message
sent = record {
  id = lit "e1";
  name = lit "order";
  project = [];
  segment = [];
  payload = lit "ok";
  sub = true;
  sub_id = lit "r";
  sub_pod = lit "pod";
  sub_module = lit "shop";
  sub_broker = lit "a";
  sub_project = lit "root";
  error = [];
  context = none;
  timestamp = pos 3;
}

sent_lem : (get_event no_marshal heap event).1 ≡ some sent
unfolding get_event routed base_message meta_from_context md_with_context message_context background
    with_value value key_eq str_eq
sent_lem = refl

abbrev no_json : Bytes → Option ℕ
no_json b = none

-- The transport fails unless a channel is found.
abbrev sends : Pub ℕ → Callback ℕ → Callback ℕ × Option ℕ
sends p c =
    (c, elim (Callback.recv c (lit "order") (lit "e1")) [ none ↦ some 1 | some chan ↦ none ])

abbrev answered : Callback ℕ → Callback ℕ × Selected ℕ
answered c = (c, received sent)

abbrev succeeds : Pub ℕ → Callback ℕ → Callback ℕ × Option ℕ
succeeds p c = (c, none)

sub_waits_example :
    (sub callbacks no_json sends answered 7 heap Callback.new (lit "order") event
      ≡ sub callbacks no_json succeeds answered 7 heap Callback.new (lit "order") event)
    × (Callback.recv
          (sub callbacks no_json sends answered 7 heap Callback.new (lit "order") event).1
          (lit "order")
          (lit "e1")
        ≡ none)
sub_waits_example =
    sub_waits callbacks Callback.recv NoColon callbacks-IsLawful no_json sends answered 7 heap
      Callback.new (lit "order") event succeeds (omega arith, (omega arith, tt))
      (λ q s e. rw e refl)

-- ===== src/Pub/Answer/Examples.antt =====
-- The theorem on an answer (pub/pub.go) at an input: the handler publishes with the typed context 7,
-- which is serialised as its byte, and an error set in its metadata.
use glider_client_go.Common.{ℕ, ◌≡◌, refl, [], ◌∷◌, Option, none, some, Bytes, lit, str_eq, false}
use glider_client_go.Common.Int.{pos}
use glider_client_go.Std.Context.{background, with_value, value, key_eq}
use glider_client_go.Proto.{Message}
use glider_client_go.Metadata.{
  Heap, empty_md, meta_from_context, md_with_context, message_context, message_with_context,
}
use glider_client_go.Callback
use glider_client_go.Callback.{Callback}
use glider_client_go.Client.Publish.{callbacks}
use glider_client_go.Pub.{Pub, Selected, received, get_event, routed, base_message, sub}
use glider_client_go.Pub.Answer.{IsGiven, or_own, sub_returns_answer}

abbrev heap : Heap
heap = record { mds = λ p. record empty_md { error = some (lit "bad") }; fresh = 1 }

abbrev marshal : ℕ → Option Bytes
marshal n = some (n ∷ [])

abbrev unmarshal : Bytes → Option ℕ
unmarshal [] = none
unmarshal (b ∷ bs) = some b

json : (t : ℕ) (raw : Bytes) → marshal t ≡ some raw → unmarshal raw ≡ some t
json t raw e = let same : raw ≡ t ∷ [] = cc e in rw same refl

abbrev request : Pub ℕ
request = record {
  id = lit "r1";
  pid = lit "pod1";
  name = lit "user";
  project = [];
  payload = lit "{}";
  context = background;
  timestamp = pos 3;
  subscribed = false;
}

abbrev answer : Pub ℕ
answer = record request {
  id = lit "u2";
  payload = lit "ok";
  context = message_with_context (md_with_context 0 background) 7;
}

abbrev answer_message : Message
answer_message = record (base_message answer) { context = some (7 ∷ []) }

answer_lem : (get_event marshal heap answer).1 ≡ some answer_message
unfolding get_event routed base_message meta_from_context message_context message_with_context
    md_with_context background with_value value key_eq str_eq
answer_lem = refl

abbrev send_ok : Pub ℕ → Callback ℕ → Callback ℕ × Option ℕ
send_ok p c = (c, none)

abbrev answered : Callback ℕ → Callback ℕ × Selected ℕ
answered c = (c, received answer_message)

sub_returns_answer_example :
    IsGiven
      (or_own (message_context answer.context) (message_context request.context))
      (lit "ok")
      (sub callbacks unmarshal send_ok answered 7 heap Callback.new (lit "user.res") request).2
sub_returns_answer_example =
    sub_returns_answer callbacks unmarshal marshal send_ok answered 7 heap heap Callback.new
      (lit "user.res") request answer answer_message json answer_lem refl refl

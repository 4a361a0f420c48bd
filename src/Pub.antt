-- ===== src/Pub.antt =====
-- pub/pub.go: an event prepared for sending, and the wait for its response. encoding/json is the
-- pair of parameters `marshal` and `unmarshal`, which may fail; the transport is a parameter of
-- `sub` and `do_pub`. The channel of a request is named by `Chan`.
pub mod Event
pub mod Wait
pub mod Exchange
pub mod Answer
mod Examples
use glider_client_go.Common.{
  ℕ, Bool, true, false, not, ◌&&◌, List, [], ◌∷◌, Option, none, some, arith, Bytes, lit, str_eq,
  if◌then◌else◌, Result, ok, err,
}
use glider_client_go.Common.Int.{ℤ}
use glider_client_go.Std.Context.{Context}
use glider_client_go.Proto.{Message}
use glider_client_go.Metadata.{
  Md, Heap, Value, meta_from_context, from_recv, md_with_context, message_context,
  message_with_context, store_md,
}

pub record Pub {ℓ} (T : Type ℓ) : Type ℓ where
  pub id : Bytes
  pub pid : Bytes
  pub name : Bytes
  pub project : Bytes
  pub payload : Bytes
  pub context : Context (Value T)
  pub timestamp : ℤ
  pub subscribed : Bool

-- An error of the transport or of the context is named by `E`.
pub data PubError {ℓ} (E : Type ℓ) : Type ℓ where
  json_failed : PubError E
  remote : Bytes → PubError E
  other : E → PubError E

-- A response, or the end of the context, whichever `select` takes.
pub data Selected {ℓ} (E : Type ℓ) : Type ℓ where
  received : Message → Selected E
  cancelled : E → Selected E

-- The triple that `Sub` returns.
pub record Returned {ℓ κ} (E : Type ℓ) (T : Type κ) : Type (ℓ ⊔ κ) where
  pub context : Option (Context (Value T))
  pub payload : Option Bytes
  pub error : Option (PubError E)

-- RegisterCbFunc and UnregisterCbFunc, on the state `S` of what stands behind them.
pub record Registry {ℓ κ} (S : Type ℓ) (Chan : Type κ) : Type (ℓ ⊔ κ) where
  pub register : S → Bytes → Bytes → Chan → S
  pub unregister : S → Bytes → Bytes → S

-- A routing field is there.
abbrev pub is_set : Bytes → Bool
is_set s = not (str_eq s [])

-- The message before its typed context, from the metadata of the context.
unfoldable pub routed : Message → Md → Message
routed msg md =
    if md.sub
      && (is_set md.sub_pod
          && (is_set md.sub_module && (is_set md.sub_broker && is_set md.sub_project)))
    then record msg {
      sub_id = md.sub_id;
      sub = true;
      sub_pod = md.sub_pod;
      sub_module = md.sub_module;
      sub_broker = md.sub_broker;
      sub_project = md.sub_project;
    }
    else msg

module _ {ℓ} {T : Type ℓ} where
  -- The message literal of `GetEvent`: the fields that it does not name are zero.
  unfoldable pub base_message : Pub T → Message
  base_message p = record {
    id = p.id;
    name = p.name;
    project = p.project;
    segment = [];
    payload = p.payload;
    sub = p.subscribed;
    sub_id = [];
    sub_pod = [];
    sub_module = [];
    sub_broker = [];
    sub_project = [];
    error = [];
    context = none;
    timestamp = p.timestamp;
  }

  -- GetEvent
  unfoldable pub get_event : (T → Option Bytes) → Heap → Pub T → Heap × Option Message
  get_event marshal h p =
      let (h', ptr) = meta_from_context h p.context in
      let msg = routed (base_message p) (h'.mds ptr) in
      (
        h',
        elim (message_context p.context) [
          | none ↦ some msg
          | some t ↦ elim (marshal t) [
            | none ↦ none
            | some raw ↦ some (record msg { context = some raw })
          ]
        ],
      )

module _ {ℓ κ} {E : Type ℓ} {T : Type κ} where
  -- What `Sub` makes of the message received.
  unfoldable pub on_response :
      (Bytes → Option T) → Heap → Context (Value T) → Message → Heap × Returned E T
  on_response unmarshal h ctx msg =
      let (h', ctx') = from_recv h ctx msg in
      let failed : Returned E T = record {
        context = some ctx';
        payload = none;
        error = some (remote msg.error);
      } in
      let typed' : Returned E T = elim msg.context [
        | none ↦ record { context = some ctx'; payload = some msg.payload; error = none }
        | some raw ↦ elim (unmarshal raw) [
          | none ↦ record { context = some ctx'; payload = none; error = some json_failed }
          | some t ↦ record {
            context = some (message_with_context ctx' t);
            payload = some msg.payload;
            error = none;
          }
        ]
      ] in
      (h', if not (str_eq msg.error []) then failed else typed')

module _ {ℓ κ λ' μ} {E : Type ℓ} {T : Type κ} {Chan : Type λ'} {S : Type μ}
    (registry : Registry S Chan) (unmarshal : Bytes → Option T) where
  -- The deferred call and the result after the wait.
  unfoldable pub after_wait : Heap → Bytes → Pub T → S → Selected E → Heap × S × Returned E T
  after_wait h event p left (cancelled e) = (
    h,
    registry.unregister left event p.id,
    record { context = none; payload = none; error = some (other e) },
  )
  after_wait h event p left (received msg) =
      let (h', r) = on_response unmarshal h p.context msg in
      (h', registry.unregister left event p.id, r)

  -- Sub. The callbacks are passed through the send and the wait, where others change them too; the
  -- deferred call removes the registration on every path.
  unfoldable pub sub :
      (Pub T → S → S × Option E)
      → (S → S × Selected E)
      → Chan
      → Heap
      → S
      → Bytes
      → Pub T
      → Heap × S × Returned E T
  sub send_func wait chan h callbacks event p =
      let p' : Pub T = record p { subscribed = true } in
      let registered = registry.register callbacks event p.id chan in
      let (sent, failure) = send_func p' registered in
      let (left, selected) = wait sent in
      elim failure [
        | some e ↦ (
          h,
          registry.unregister sent event p.id,
          record { context = none; payload = none; error = some (other e) },
        )
        | none ↦ after_wait h event p left selected
      ]

-- Do
unfoldable pub do_pub {ℓ κ λ'} :
    {E : Type ℓ} {T : Type κ} {S : Type λ'} → (Pub T → S → S × Option E) → Pub T → S → S × Option E
do_pub send_func p s = send_func p s

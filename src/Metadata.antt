-- ===== src/Metadata.antt =====
-- metadata/metadata.go, and what other packages keep in a context: message/context.go, error.go,
-- project.go, segment.go. A context holds a pointer to its metadata, so the MD structures stand
-- on a heap, which the calls pass on. `T` is the type parameter CTX of typed message metadata, and
-- `unmarshal` is encoding/json at that type. An error is its text.
pub mod Views
mod Examples
use glider_client_go.Common.{
  ℕ, suc, ◌+◌, Bool, true, false, List, [], ◌∷◌, Option, none, some, arith, Bytes, lit, str_eq,
  ◌==◌, if◌then◌else◌, not, Result, ok, err,
}
use glider_client_go.Std.Context.{
  Key, metadata_key, context_key, string_key, Context, with_value, value,
}
use glider_client_go.Proto.{Message}

pub record Md : Type 0 where
  pub id : Bytes
  pub project : Bytes
  pub segment : Bytes
  pub sub : Bool
  pub sub_id : Bytes
  pub sub_pod : Bytes
  pub sub_module : Bytes
  pub sub_broker : Bytes
  pub sub_project : Bytes
  pub error : Option Bytes

-- `&MD{}`
abbrev pub empty_md : Md
empty_md = record {
  id = [];
  project = [];
  segment = [];
  sub = false;
  sub_id = [];
  sub_pod = [];
  sub_module = [];
  sub_broker = [];
  sub_project = [];
  error = none;
}

-- The allocated structures; `fresh` is the next address.
pub record Heap : Type 0 where
  pub mds : ℕ → Md
  pub fresh : ℕ

abbrev pub store_md : Heap → ℕ → Md → Heap
store_md h p md = record h { mds = λ q. if q == p then md else h.mds q }

-- What a context holds: a *MD, a value of type CTX, or a string.
pub data Value {ℓ} (T : Type ℓ) : Type ℓ where
  md_pointer : ℕ → Value T
  typed : T → Value T
  text : Bytes → Value T

abbrev pub md_key : Key
md_key = metadata_key (lit "metadata")

abbrev pub message_key : Key
message_key = context_key (lit "message")

-- The assignments of `FromRecv` to the structure.
unfoldable pub filled : Md → Message → Md
filled md msg =
    let md = record md { id = msg.id; project = msg.project; segment = msg.segment } in
    let md =
      if msg.sub
      then record md {
        sub = msg.sub;
        sub_id = msg.id;
        sub_pod = msg.sub_pod;
        sub_module = msg.sub_module;
        sub_broker = msg.sub_broker;
        sub_project = msg.sub_project;
      }
      else md in
    if not (str_eq msg.error []) then record md { error = some msg.error } else md

module _ {ℓ} {T : Type ℓ} where
  -- MD.WithContext, through the pointer `p`
  unfoldable pub md_with_context : ℕ → Context (Value T) → Context (Value T)
  md_with_context p ctx = with_value ctx md_key (md_pointer p)

  -- MetaFromContext: the pointer in the context, or that of a new empty structure.
  unfoldable pub meta_from_context : Heap → Context (Value T) → Heap × ℕ
  meta_from_context h ctx = elim (value ctx md_key) [
    | some (md_pointer p) ↦ (h, p)
    | _ ↦ (record (store_md h h.fresh empty_md) { fresh = h.fresh + 1 }, h.fresh)
  ]

  -- FromRecv
  unfoldable pub from_recv : Heap → Context (Value T) → Message → Heap × Context (Value T)
  from_recv h ctx msg =
      let (h', p) = meta_from_context h ctx in
      (store_md h' p (filled (h'.mds p) msg), md_with_context p ctx)

  -- error.go, WithError
  unfoldable pub with_error : Heap → Context (Value T) → Option Bytes → Heap × Context (Value T)
  with_error h ctx e =
      let (h', p) = meta_from_context h ctx in
      (store_md h' p (record (h'.mds p) { error = e }), md_with_context p ctx)

  -- message.Context; `none` is ErrMessageContextNotFound.
  unfoldable pub message_context : Context (Value T) → Option T
  message_context ctx = elim (value ctx message_key) [ some (typed t) ↦ some t | _ ↦ none ]

  -- message.WithContext
  unfoldable pub message_with_context : Context (Value T) → T → Context (Value T)
  message_with_context ctx t = with_value ctx message_key (typed t)

  -- message.FromRecv
  unfoldable pub message_from_recv :
      (Bytes → Option T) → Context (Value T) → Message → Context (Value T)
  message_from_recv unmarshal ctx msg = elim msg.context [
    | none ↦ ctx
    | some raw ↦ elim (unmarshal raw) [ none ↦ ctx | some t ↦ message_with_context ctx t ]
  ]

  -- project.go: Project, with its `ok`.
  unfoldable pub project_of : Context (Value T) → Bytes × Bool
  project_of ctx = elim (value ctx (string_key (lit "project"))) [
    | some (text p) ↦ (p, true)
    | _ ↦ ([], false)
  ]

  -- project.go: WithProject
  unfoldable pub with_project : Context (Value T) → Bytes → Context (Value T)
  with_project ctx project = with_value ctx (string_key (lit "project")) (text project)

  -- segment.go: Segment, with its `ok`.
  unfoldable pub segment_of : Context (Value T) → Bytes × Bool
  segment_of ctx = elim (value ctx (string_key (lit "segment"))) [
    | some (text s) ↦ (s, true)
    | _ ↦ ([], false)
  ]

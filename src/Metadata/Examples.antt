-- ===== src/Metadata/Examples.antt =====
-- Tests of metadata/metadata.go and the context values, and their theorems at inputs.
use glider_client_go.Common.{ℕ, ◌≡◌, refl, false, [], none, some, lit, str_eq}
use glider_client_go.Common.Int.{pos}
use glider_client_go.Std.Context.{Context, background, with_value, value, key_eq}
use glider_client_go.Proto.{Message}
use glider_client_go.Metadata.{
  Heap, Value, empty_md, filled, from_recv, md_with_context, meta_from_context,
}
use glider_client_go.Metadata.Views.{pointer_of, read}

-- One structure, and a context that holds it.
abbrev one_md : Heap
one_md = record { mds = λ _. empty_md; fresh = 1 }

abbrev holder : Context (Value ℕ)
holder = md_with_context 0 background

abbrev failure : Message
failure = record {
  id = lit "m";
  name = lit "order";
  project = lit "root";
  segment = [];
  payload = [];
  sub = false;
  sub_id = [];
  sub_pod = [];
  sub_module = [];
  sub_broker = [];
  sub_project = [];
  error = lit "boom";
  context = none;
  timestamp = pos 1;
}

-- The context given to `FromRecv` changes with the one that it returns.
given_changes : (read (from_recv one_md holder failure).0 holder).error ≡ some (lit "boom")
unfolding read pointer_of from_recv filled meta_from_context md_with_context with_value value key_eq
    str_eq
given_changes = refl

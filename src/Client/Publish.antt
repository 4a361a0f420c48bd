-- ===== src/Client/Publish.antt =====
-- client/client.go: Pub and recv. `uuid` is the new UUID, `now` the clock.
use glider_client_go.Common.{str_eq_refl, ◌∙◌, refl, false, List, [], Option, Bytes}
use glider_client_go.Common.Int.{ℤ}
use glider_client_go.Std.Context.{Context}
use glider_client_go.Proto.{Message}
use glider_client_go.Metadata.{Heap, Value, meta_from_context, md_with_context, store_md}
use glider_client_go.Pub.{Pub, Registry}
use glider_client_go.Pub.Wait.{IsLawful}
use glider_client_go.Callback.Keys.{NoColon, recv-register, recv-unregister}
use glider_client_go.Sub
use glider_client_go.Callback

-- `Pub`: the ID is set in the metadata of the given context. The project is left empty.
unfoldable pub client_pub {ℓ} :
    {T : Type ℓ} → Heap → Bytes → Bytes → ℤ → Context (Value T) → Bytes → Bytes → Heap × Pub T
client_pub h pid uuid now ctx name payload =
    let (h', md) = meta_from_context h ctx in
    (
      store_md h' md (record (h'.mds md) { id = uuid }),
      record {
        id = uuid;
        pid = pid;
        name = name;
        project = [];
        payload = payload;
        context = md_with_context md ctx;
        timestamp = now;
        subscribed = false;
      },
    )

-- What `Pub` hands on as RegisterCbFunc and UnregisterCbFunc.
abbrev pub callbacks {ℓ} : {Chan : Type ℓ} → Registry (Callback.Callback Chan) Chan
callbacks = record { register = Callback.register; unregister = Callback.unregister }

-- The callbacks keep their promise for IDs without a colon.
pub callbacks-IsLawful {ℓ} :
    {Chan : Type ℓ} → IsLawful (callbacks {Chan = Chan}) Callback.recv NoColon
callbacks-IsLawful = record {
  registered = λ c event id chan n.
      recv-register c event id event id chan n n ∙ rw (str_eq_refl, str_eq_refl) refl;
  unregistered =
      λ c event id n. recv-unregister c event id event id n n ∙ rw (str_eq_refl, str_eq_refl) refl;
}

-- `recv`: the handlers started, and the channel of the response if one is registered.
unfoldable pub recv {ℓ κ} :
    {Cb : Type ℓ} {Chan : Type κ}
    → Sub.Store Cb
    → Callback.Callback Chan
    → Message
    → List (Cb × Bytes) × Option Chan
recv subs callbacks msg =
    (Sub.recv subs msg.name msg.payload, Callback.recv callbacks msg.name msg.sub_id)

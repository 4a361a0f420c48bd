-- ===== src/Callback.antt =====
-- callback/callback.go: channels that wait for a response, under the key "event:id". `Chan` is
-- the type of channels, and a delivery is the goroutine that sends the message to one.
pub mod Keys
use glider_client_go.Common.{ℕ, List, [], ◌∷◌, ◌++◌, Option, none, some, arith, Bytes, lit}
use glider_client_go.Common.Maps.{lookup, insert, delete}

-- fmt.Sprintf("%s:%s", event, id)
unfoldable pub cb_id : Bytes → Bytes → Bytes
cb_id event id = event ++ (b':' ∷ id)

module _ {ℓ} (Chan : Type ℓ) where
  pub record Callback : Type ℓ where
    pub list : List (Bytes × Chan)

module _ {ℓ} {Chan : Type ℓ} where
  unfoldable pub new : Callback Chan
  new = record { list = [] }

  -- Recv, of a message by its name and SubId: the channel that the message is sent to, if any.
  unfoldable pub recv : Callback Chan → Bytes → Bytes → Option Chan
  recv c name sub_id = lookup (cb_id name sub_id) c.list

  unfoldable pub register : Callback Chan → Bytes → Bytes → Chan → Callback Chan
  register c event id cb = record { list = insert (cb_id event id) cb c.list }

  unfoldable pub unregister : Callback Chan → Bytes → Bytes → Callback Chan
  unregister c event id = record { list = delete (cb_id event id) c.list }

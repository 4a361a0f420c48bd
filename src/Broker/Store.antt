-- ===== src/Broker/Store.antt =====
-- broker/store.go: all known brokers by ID. `done` answers the brokers whose contexts it cancels.
pub mod Laws
pub mod Order
use glider_client_go.Common.{List, [], ◌∷◌, Option, Bytes}
use glider_client_go.Common.Maps.{lookup, insert, delete}
use glider_client_go.Broker.Info.{Broker}

pub record Store : Type 0 where
  pub brokers : List (Bytes × Broker)

unfoldable pub new : Store
new = record { brokers = [] }

-- The loop of `Done` over the entries: cancel the broker, and delete the entry of its ID.
unfoldable pub done_loop :
    List (Bytes × Broker) → List (Bytes × Broker) → List (Bytes × Broker) × List Broker
done_loop [] m = (m, [])
done_loop ((k, bk) ∷ rest) m =
    let (m', cancelled) = done_loop rest (delete bk.id m) in (m', bk ∷ cancelled)

unfoldable pub done : Store → Store × List Broker
done s = let (m, cancelled) = done_loop s.brokers s.brokers in (record { brokers = m }, cancelled)

unfoldable pub get : Store → Bytes → Option Broker
get s id = lookup id s.brokers

unfoldable pub set : Store → Broker → Store
set s bk = record { brokers = insert bk.id bk s.brokers }

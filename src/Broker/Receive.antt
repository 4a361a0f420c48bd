-- ===== src/Broker/Receive.antt =====
-- broker/broker.go: handleRecv, from the background context.
use glider_client_go.Common.{Option, Bytes}
use glider_client_go.Std.Context.{Context, background}
use glider_client_go.Proto.{Message}
use glider_client_go.Metadata.{Heap, Value, from_recv, message_from_recv}

-- The context that RecvFunc is called with.
unfoldable pub handle_recv {ℓ} :
    {T : Type ℓ} → (Bytes → Option T) → Heap → Message → Heap × Context (Value T)
handle_recv unmarshal h msg =
    let (h', ctx) = from_recv h background msg in (h', message_from_recv unmarshal ctx msg)

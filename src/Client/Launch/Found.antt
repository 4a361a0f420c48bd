-- ===== src/Client/Launch/Found.antt =====
-- What a broker finds that calls back while the loop of Start still runs (client/client.go), and what
-- comes of a reset that it asks for.
use glider_client_go.Common.{◌≡◌, true, some, Bytes}
use glider_client_go.Broker.Info.{Broker}
use glider_client_go.Broker.Store
use glider_client_go.Broker.Store.{Store}
use glider_client_go.Client.{Client}
use glider_client_go.Client.Launch.{Launch, among}

-- A broker of this ID is in the store.
abbrev IsStored : Store → Bytes → Type 0
IsStored store id = (bk : Broker) × (Store.get store id ≡ some bk) × (bk.id ≡ id)

-- Every broker that is set or started is.
record AreStored (s : Launch) : Type 0 where
  started : (id : Bytes) → among id s.started ≡ true → IsStored s.client.brokers id
  placed : (id : Bytes) → s.placed ≡ some id → IsStored s.client.brokers id

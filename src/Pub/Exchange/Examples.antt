-- ===== src/Pub/Exchange/Examples.antt =====
-- The theorem on the goroutines of a request (pub/pub.go) at an input: two brokers answer the same
-- request before it returns.
use glider_client_go.Common.{Bool, true, false, [], ◌∷◌, none, lit}
use glider_client_go.Common.Int.{pos}
use glider_client_go.Proto.{Message}
use glider_client_go.Pub.{received}
use glider_client_go.Pub.Exchange.{Caller, Exchange, arrive}

abbrev reply : Message
reply = record {
  id = lit "m";
  name = lit "order";
  project = [];
  segment = [];
  payload = lit "ok";
  sub = true;
  sub_id = lit "r";
  sub_pod = [];
  sub_module = [];
  sub_broker = [];
  sub_project = [];
  error = [];
  context = none;
  timestamp = pos 0;
}

-- Two responses have found the channel, and one has its sender when the request returns.
abbrev returned : Exchange Bool
returned = record {
  caller = Caller.returned (received reply);
  registered = false;
  found = reply ∷ [];
  senders = [];
  arrived = reply ∷ reply ∷ [];
}

-- The other sender starts, and a third response finds nothing.
abbrev later : Exchange Bool
later = arrive reply (record returned { found = []; senders = reply ∷ [] })

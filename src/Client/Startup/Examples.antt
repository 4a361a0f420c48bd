-- ===== src/Client/Startup/Examples.antt =====
-- The theorem on Start (client/client.go) at an input: the options name no project, and the
-- certificate of the one broker that the server answers.
use glider_client_go.Common.{false, [], ◌∷◌, none, lit}
use glider_client_go.Broker.Store
use glider_client_go.Pubsub
use glider_client_go.Client.{Client}

abbrev options : Pubsub.Options
options = record {
  project = [];
  module' = lit "shop";
  host = lit "h";
  secret = lit "key";
  subs = [];
  pubs = [];
  auth_options = none;
  certs = (lit "a", lit "/ca.crt") ∷ [];
}

abbrev fresh_client : Client
fresh_client = record {
  pid = [];
  certs = [];
  brokers = Store.new;
  current_send = 0;
  online_brokers = [];
  online = false;
  reset_process = false;
  overstay_process = false;
}

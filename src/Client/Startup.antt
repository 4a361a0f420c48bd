-- ===== src/Client/Startup.antt =====
-- The whole of Start (client/client.go) after New (pubsub.go): the HTTP client of the settings, the
-- request for the brokers (broker/request.go), and the store that they are put into.
mod Examples
use glider_client_go.Common.{
  ℕ, ◌+◌, ◌≡◌, refl, sym, ap, ◌∙◌, List, [], ◌∷◌, Option, none, some, arith, Bytes, str_eq,
  Option-cases, Result, ok, err, if◌then◌else◌, not, reject_if, ◌>>=◌, ◌>>◌,
}
use glider_client_go.Common.Maps.{lookup}
use glider_client_go.HttpClient
use glider_client_go.HttpClient.{HttpError, Request, Response}
use glider_client_go.Broker.Info.{Broker, set_cert_path}
use glider_client_go.Broker.Store
use glider_client_go.Broker.Store.Laws.{get-set}
use glider_client_go.Broker.Request.{
  RequestRes, RequestOptions, Surroundings, Attempt, request_brokers,
}
use glider_client_go.Broker.Request.Served.{attempt_of}
use glider_client_go.Pubsub
use glider_client_go.Pubsub.{Settings, authenticator}
use glider_client_go.Client.{Client, add_brokers, start}

-- The last broker of a response with this ID.
abbrev pub last_with : Bytes → List Broker → Option Broker
last_with id [] = none
last_with id (b ∷ bs) = elim (last_with id bs) [
  | some x ↦ some x
  | none ↦ if str_eq b.id id then some b else none
]

-- A broker with the certificate that the options name for its ID.
abbrev pub certified : List (Bytes × Bytes) → Broker → Broker
certified certs b = elim (lookup b.id certs) [ some crt ↦ set_cert_path b crt | none ↦ b ]

pub certified-id : (certs : List (Bytes × Bytes)) (b : Broker) → (certified certs b).id ≡ b.id
unfolding set_cert_path
certified-id certs b = ground (arith, Option-cases (lookup b.id certs))

-- What stands under an ID after the brokers of a response are added: the last of the ID, with its
-- certificate, or what stood there.
abbrev pub assigned : List (Bytes × Bytes) → Bytes → List Broker → Option Broker → Option Broker
assigned certs id bs before = elim (last_with id bs) [
  | none ↦ before
  | some b ↦ some (certified certs b)
]

pub get-add_brokers :
    (certs : List (Bytes × Bytes)) (bs : List Broker) (store : Store.Store) (id : Bytes)
    → Store.get (add_brokers certs bs store) id ≡ assigned certs id bs (Store.get store id)
unfolding add_brokers
get-add_brokers certs [] store id = refl
get-add_brokers certs (b ∷ bs) store id = ground (
  arith,
  get-add_brokers certs bs (Store.set store (certified certs b)) id,
  get-set store (certified certs b) id,
  certified-id certs b,
  Option-cases (last_with id bs),
)

-- The HTTP client of settings that name a host, a module and a project.
abbrev pub http_client : Settings → HttpClient.Client
http_client s = record {
  base_url = s.host;
  module' = s.module';
  project = s.project;
  auth = authenticator s;
}

abbrev pub http_options : Settings → HttpClient.Options
http_options s = record {
  base_url = s.host;
  module' = s.module';
  project = s.project;
  auth = some (authenticator s);
}

-- The client whose certificates are those of the settings, which no call changes.
abbrev pub with_settings : Settings → Client → Client
with_settings s c = record c { certs = s.certs }

abbrev pub request_options : Settings → RequestOptions
request_options s = record {
  project = s.project;
  module' = s.module';
  subs = s.subs;
  pubs = s.pubs;
}

module _ (mac : Bytes → Bytes → Bytes) (unmarshal : Bytes → Option (Response RequestRes))
    (url_parse : Bytes → Option Bytes) (marshal : RequestOptions → Option Bytes) where
  -- Start of a client of these settings, whose other fields are those of `c`: the seconds slept, and
  -- the client or the error that it panics with; `none` while it still retries.
  unfoldable pub start_client :
      Settings
      → List Surroundings
      → Bytes
      → Bytes
      → Client
      → Option (List ℕ × Result HttpError Client)
  start_client s surroundings hostname uuid c = elim (HttpClient.new (http_options s)) [
    | err e ↦ some ([], err e)
    | ok client ↦
        elim (request_brokers mac unmarshal url_parse marshal client (request_options s)
          surroundings) [
            | none ↦ none
            | some (slept, err e) ↦ some (slept, err e)
            | some (slept, ok response) ↦
                some (slept, ok (start (with_settings s c) response hostname uuid))
          ]
  ]

  -- An attempt of the client that the options make.
  abbrev pub start_attempt : Pubsub.Options → Surroundings → Attempt
  start_attempt o =
      attempt_of mac unmarshal url_parse marshal (http_client (Pubsub.new o))
        (request_options (Pubsub.new o))

-- ===== src/HttpClient.antt =====
-- httpclient: requests to the control server, signed on the way out and checked on the way back.
-- net/url, encoding/json and the transport of net/http are parameters; a request that cannot be
-- built, sent or read is an error of theirs.
pub mod Outcomes
pub mod Headers
mod Examples
use glider_client_go.Common.{
  ℕ, Bool, true, false, not, ◌&&◌, ◌||◌, List, [], ◌∷◌, ◌++◌, Option, none, some, arith, Bytes, lit,
  str_eq, if◌then◌else◌, Result, ok, err, ◌>>=◌, ◌>>◌, reject_if, ltb, leb, ◌==◌,
}
use glider_client_go.Std.Time.{Instant}
use glider_client_go.Auth.{Authhmac, Hmac, AuthError, generate, validate}

pub data HttpError : Type 0 where
  base_url_required authhmac_required module_required project_required : HttpError
  failed_to_parse_url failed_to_marshal_body internal_server_error request_failed : HttpError
  unauthorized permission_denied not_found invalid_response_body invalid_request_nonce : HttpError
  auth_failed : AuthError → HttpError
  read_failed : HttpError

pub record Options : Type 0 where
  pub base_url : Bytes
  pub module' : Bytes
  pub project : Bytes
  pub auth : Option Authhmac

pub record Client : Type 0 where
  pub base_url : Bytes
  pub module' : Bytes
  pub project : Bytes
  pub auth : Authhmac

-- Options.validate; an error is the panic with it. The authenticator is handed on as present.
unfoldable pub validate_options : Options → Result HttpError Authhmac
validate_options o = do
  reject_if (str_eq o.base_url []) base_url_required
  auth ← elim o.auth [ none ↦ err authhmac_required | some a ↦ ok a ]
  reject_if (str_eq o.module' []) module_required
  reject_if (str_eq o.project []) project_required
  ok auth

-- New
unfoldable pub new : Options → Result HttpError Client
new o = do
  auth ← validate_options o
  ok (record { base_url = o.base_url; module' = o.module'; project = o.project; auth = auth })

-- `request`; the parsed URL is its text.
pub record Request : Type 0 where
  pub project : Bytes
  pub module' : Bytes
  pub url : Bytes
  pub method : Bytes
  pub body : Bytes
  pub hmac : Hmac

-- GetNonce
unfoldable pub get_nonce : Request → Bytes
get_nonce r = r.hmac.nonce

abbrev pub of_auth {ℓ} : {A : Type ℓ} → Result AuthError A → Result HttpError A
of_auth (ok a) = ok a
of_auth (err e) = err (auth_failed e)

abbrev pub or_fail {ℓ} : {A : Type ℓ} → Option A → HttpError → Result HttpError A
or_fail none e = err e
or_fail (some a) e = ok a

module _ (mac : Bytes → Bytes → Bytes) (rand_read : ℕ → Option Bytes)
    (url_parse : Bytes → Option Bytes) where
  -- Client.Create; `marshalled` is the JSON of the data.
  unfoldable pub create : Client → Instant → Bytes → Bytes → Option Bytes → Result HttpError Request
  create c now method uri marshalled = do
    u ← or_fail (url_parse (c.base_url ++ uri)) failed_to_parse_url
    body ← or_fail marshalled failed_to_marshal_body
    hmac ← of_auth (generate mac rand_read c.auth now body)
    ok (record {
      project = c.project;
      module' = c.module';
      url = u;
      method = method;
      body = body;
      hmac = hmac;
    })

-- Client.ValidateHmac
unfoldable pub validate_hmac :
    (Bytes → Bytes → Bytes) → Client → Instant → Bytes → Hmac → Result AuthError (Unit {0})
validate_hmac mac c now body hmac = validate mac c.auth now body hmac

-- What goes to the transport.
pub record HttpRequest : Type 0 where
  pub method : Bytes
  pub url : Bytes
  pub body : Bytes
  pub headers : List (Bytes × Bytes)

-- `Header.Get` is `header`; the body may fail to be read.
pub record HttpResponse : Type 0 where
  pub status : ℕ
  pub header : Bytes → Bytes
  pub body : Option Bytes

unfoldable pub http_request : Request → HttpRequest
http_request r = record {
  method = r.method;
  url = r.url;
  body = r.body;
  headers =
      (lit "Content-Type", lit "application/json")
      ∷ (lit "X-Signature", r.hmac.signature)
      ∷ (lit "X-Timestamp", r.hmac.timestamp)
      ∷ (lit "X-Nonce", r.hmac.nonce)
      ∷ (lit "X-Project", r.project)
      ∷ (lit "X-Module", r.module')
      ∷ [];
}

-- The switch on a status other than 200.
unfoldable pub status_error : ℕ → HttpError
status_error status =
    if status == 401
    then unauthorized
    else if status == 403
    then permission_denied
    else if status == 404
    then not_found
    else internal_server_error

-- request.Do, the unreachable check included. `buildable` says whether net/http takes the request.
unfoldable pub do_request :
    (HttpRequest → Bool)
    → (HttpRequest → Option HttpResponse)
    → Request
    → Result HttpError HttpResponse
do_request buildable transport r = do
  reject_if (not (buildable (http_request r))) internal_server_error
  resp ← or_fail (transport (http_request r)) request_failed
  reject_if (not (resp.status == 200)) (status_error resp.status)
  reject_if (ltb resp.status 200 || leb 300 resp.status) request_failed
  ok resp

pub record Response {ℓ} (D : Type ℓ) : Type ℓ where
  pub data' : D
  pub request_nonce : Bytes
  pub error : Option Bytes
  pub success : Bool

-- CompareRequestNonce
unfoldable pub compare_request_nonce {ℓ} : {D : Type ℓ} → Response D → Bytes → Bool
compare_request_nonce r nonce = str_eq r.request_nonce nonce

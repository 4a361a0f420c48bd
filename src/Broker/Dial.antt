-- ===== src/Broker/Dial.antt =====
-- broker/broker.go (client) and broker/file.go: the transport of a connection. The working directory,
-- path/filepath, the reading of a certificate and grpc.NewClient are parameters.
mod Examples
use glider_client_go.Common.{
  ℕ, ◌≡◌, ◌⊎◌, ◌∙◌, Bool, true, false, not, ◌++◌, ◌∷◌, Option, none, some, Bytes, if◌then◌else◌,
  Result, ok, err, ◌>>=◌, ◌>>◌, reject_if, >>-eq-ok,
}
use glider_client_go.Std.Decimal.{format_int}
use glider_client_go.Broker.Info.{Broker}

-- `cert_failed` is the panic of Path; `cert_unreadable` is the error of the credentials.
pub data DialError : Type 0 where
  cert_failed cert_unreadable dial_failed : DialError

-- tls.VersionTLS12
abbrev pub version_tls12 : ℕ
version_tls12 = 0x0303

-- TLS with the authority of a file, or of the system from a version on; each with a server name.
pub data Credentials : Type 0 where
  from_file : (file host : Bytes) → Credentials
  of_system : (min_version : ℕ) (host : Bytes) → Credentials

abbrev pub or_failed {ℓ} : {A : Type ℓ} → Option A → Result DialError A
or_failed none = err dial_failed
or_failed (some a) = ok a

module _ (is_abs : Bytes → Bool) (join : Bytes → Bytes → Bytes) (getwd : Option Bytes) where
  -- Path
  unfoldable pub path : Bytes → Result DialError Bytes
  path rel =
      if is_abs rel
      then ok rel
      else elim getwd [ none ↦ err cert_failed | some wd ↦ ok (join wd rel) ]

  module _ {ℓ ℓ2} {Conn : Type ℓ} {Interceptor : Type ℓ2} (cert_loads : Bytes → Bytes → Bool)
      (new_client : Bytes → Credentials → Interceptor → Option Conn) where
    unfoldable pub credentials : Broker → Result DialError Credentials
    credentials b =
        if b.insecure
        then (do
          file ← path b.cert_path
          reject_if (not (cert_loads file b.host)) cert_unreadable
          ok (from_file file b.host))
        else ok (of_system version_tls12 b.host)

    -- Broker.client, with the interceptor of the broker.
    unfoldable pub dial : Interceptor → Broker → Result DialError Conn
    dial interceptor b = do
      creds ← credentials b
      or_failed (new_client (b.host ++ (b':' ∷ format_int b.port)) creds interceptor)

    -- What the credentials of a broker have to be.
    abbrev pub IsCredentials : Broker → Credentials → Type 0
    IsCredentials b (from_file file host) =
        (b.insecure ≡ true)
        × (host ≡ b.host)
        × (path b.cert_path ≡ ok file)
        × (is_abs file ≡ true)
        × (cert_loads file host ≡ true)
    IsCredentials b (of_system min_version host) =
        (b.insecure ≡ false) × (min_version ≡ version_tls12) × (host ≡ b.host)

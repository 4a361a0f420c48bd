-- ===== src/Broker/Interceptor.antt =====
-- broker/interceptor.go: the headers that a stream to a broker is opened with. Their use by grpc is
-- not part of the model.
use glider_client_go.Common.{
  refl, str_eq, ℕ, ◌-◌, ◌^◌, ◌<◌, ◌≡◌, List, [], ◌∷◌, ◌++◌, Option, Bytes, lit, Result, ok, ◌>>=◌,
  >>=-eq-ok,
}
use glider_client_go.Common.Int.{pos, pos_part, ◌<ℤ◌}
use glider_client_go.Std.Time.{Instant, unix, unix_of}
use glider_client_go.Common.Maps.{lookup}
use glider_client_go.HttpClient.Headers.{header_of, hmac_of}
use glider_client_go.Auth.{Authhmac, Hmac, AuthError, generate, validate}
use glider_client_go.Auth.Window.{IsFresh}
use glider_client_go.Auth.RoundTrip.{IsMac, validate-generate}

-- The pairs of metadata.
unfoldable pub identity_headers : Bytes → Bytes → Bytes → Hmac → List (Bytes × Bytes)
identity_headers project module' pid hmac =
    (lit "X-Module", module')
    ∷ (lit "X-Project", project)
    ∷ (lit "X-Pod-ID", pid)
    ∷ (lit "X-Signature", hmac.signature)
    ∷ (lit "X-Timestamp", hmac.timestamp)
    ∷ (lit "X-Nonce", hmac.nonce)
    ∷ []

-- What is read in them.
identity_headers_read :
    (project module' pid : Bytes) (hmac : Hmac)
    → (header_of (lit "X-Module") (identity_headers project module' pid hmac) ≡ module')
      × (header_of (lit "X-Project") (identity_headers project module' pid hmac) ≡ project)
      × (header_of (lit "X-Pod-ID") (identity_headers project module' pid hmac) ≡ pid)
      × (hmac_of (identity_headers project module' pid hmac) ≡ hmac)
unfolding identity_headers lookup str_eq
identity_headers_read project module' pid hmac = (refl, refl, refl, refl)

module _ (mac : Bytes → Bytes → Bytes) (rand_read : ℕ → Option Bytes) where
  -- AuthInterceptor, up to the call of the streamer.
  unfoldable pub auth_interceptor :
      Authhmac → Bytes → Bytes → Bytes → Instant → Result AuthError (List (Bytes × Bytes))
  auth_interceptor auth project module' pid now = do
    hmac ← generate mac rand_read auth now (module' ++ project)
    ok (identity_headers project module' pid hmac)

  -- The signature in the headers is one of their module and project.
  abbrev pub IsSignedFor : Authhmac → Instant → List (Bytes × Bytes) → Type 0
  IsSignedFor b later headers =
      validate mac b later
        (header_of (lit "X-Module") headers ++ header_of (lit "X-Project") headers)
        (hmac_of headers)
      ≡ ok tt

  -- Read by their names, the headers of a stream tell its module, project and pod, and a broker that
  -- shares the secret accepts their signature, for the module and the project that they tell, while it
  -- is fresh, on the conditions of a round trip of `Generate` and `Validate`. It accepts as well every
  -- other headers with this signature, timestamp and nonce whose module and project are another split
  -- of the same text, for whatever pod.
  pub interceptor_accepted :
      (a b : Authhmac) (now later : Instant) (project module' pid : Bytes)
      (headers forged : List (Bytes × Bytes))
      → IsMac mac
      → auth_interceptor a project module' pid now ≡ ok headers
      → hmac_of forged ≡ hmac_of headers
      → header_of (lit "X-Module") forged ++ header_of (lit "X-Project") forged ≡ module' ++ project
      → a.secret ≡ b.secret
      → pos 0 <ℤ unix_of now
      → unix_of now <ℤ pos (2 ^ 62)
      → pos_part b.skew < 2 ^ 63 - 1
      → pos_part b.ttl < 2 ^ 63 - 1
      → IsFresh b later (unix (unix_of now))
      → (header_of (lit "X-Module") headers ≡ module')
        × (header_of (lit "X-Project") headers ≡ project)
        × (header_of (lit "X-Pod-ID") headers ≡ pid)
        × IsSignedFor b later headers
        × IsSignedFor b later forged
  unfolding auth_interceptor
  interceptor_accepted a b now later project module' pid headers forged m e copied same secret lo hi
        hs ht fresh =
      let (hmac, made, pairs) = >>=-eq-ok (generate mac rand_read a now (module' ++ project)) _ e in
      let set : headers ≡ identity_headers project module' pid hmac = cc pairs in
      let read = identity_headers_read project module' pid hmac in
      let signed : validate mac b later (module' ++ project) hmac ≡ ok tt =
        validate-generate mac rand_read a b now later (module' ++ project) hmac m made secret lo hi
          hs ht fresh in
      (
        rw set read.0,
        rw set read.1,
        rw set read.2,
        rw (set, read.0, read.1, read.3) signed,
        rw (same, copied, set, read.3) signed,
      )

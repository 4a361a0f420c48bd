-- ===== src/Pubsub.antt =====
-- pubsub.go: the options of the library, their defaults, and the client that `New` starts.
mod Examples
use glider_client_go.Common.{
  ℕ, ◌+◌, ◌*◌, ◌^◌, ◌≤◌, ◌<◌, ◌≡◌, refl, ◌⊎◌, inl, inr, List, [], Option, none, some, arith, Bytes,
  lit, str_eq, if◌then◌else◌, Result, ok, err,
}
use glider_client_go.Common.Int.{ℤ, pos, pos_part, neg_part, ◌<ℤ◌, ◌≤ℤ◌}
use glider_client_go.Std.Decimal.{parse_int}
use glider_client_go.Std.Time.{Instant, Duration, AtMost, unix, second}
use glider_client_go.Auth
use glider_client_go.Auth.{Authhmac, Hmac, AuthError, new_auth, validate}
use glider_client_go.Auth.RoundTrip.{validate_sound}

pub record Options : Type 0 where
  pub project : Bytes
  pub module' : Bytes
  pub host : Bytes
  pub secret : Bytes
  pub subs : List Bytes
  pub pubs : List Bytes
  pub auth_options : Option Auth.Options
  pub certs : List (Bytes × Bytes)

-- The fields of client.Client that `New` sets from the options.
pub record Settings : Type 0 where
  pub project : Bytes
  pub module' : Bytes
  pub subs : List Bytes
  pub pubs : List Bytes
  pub auth_skew : Duration
  pub auth_ttl : Duration
  pub secret : Bytes
  pub host : Bytes
  pub certs : List (Bytes × Bytes)

abbrev pub default_auth : Auth.Options
default_auth = record { skew = pos (30 * second); ttl = pos (60 * second); secret = [] }

-- New
unfoldable pub new : Options → Settings
new o =
    let auth : Auth.Options = elim o.auth_options [ none ↦ default_auth | some a ↦ a ] in
    record {
      project = if str_eq o.project [] then lit "root" else o.project;
      module' = o.module';
      subs = o.subs;
      pubs = o.pubs;
      auth_skew = auth.skew;
      auth_ttl = auth.ttl;
      secret = o.secret;
      host = o.host;
      certs = o.certs;
    }

-- The authenticator that client.Client.Start makes of them.
unfoldable pub authenticator : Settings → Authhmac
authenticator s = new_auth (record { skew = s.auth_skew; ttl = s.auth_ttl; secret = s.secret })

default_authenticator :
    (o : Options)
    → o.auth_options ≡ none
    → authenticator (new o)
      ≡ record { skew = pos (30 * second); ttl = pos (60 * second); secret = o.secret }
unfolding authenticator new new_auth
default_authenticator o e = rw e refl

-- Without options for the authenticator, a client accepts a request only if its timestamp is at most
-- 30 seconds before or after the clock, or 2 ^ 63 ns or more after it.
default_window :
    (mac : Bytes → Bytes → Bytes) (o : Options) (now : Instant) (body : Bytes) (req : Hmac)
    → o.auth_options ≡ none
    → validate mac (authenticator (new o)) now body req ≡ ok tt
    → (ts : ℤ) × (parse_int req.timestamp ≡ some ts)
      × ((AtMost (30 * second) now (unix ts) × AtMost (30 * second) (unix ts) now)
          ⊎ (pos_part now + neg_part (unix ts) + 2 ^ 63 ≤ pos_part (unix ts) + neg_part now))
default_window mac o now body req e h =
    let a : Authhmac = record {
      skew = pos (30 * second);
      ttl = pos (60 * second);
      secret = o.secret;
    } in
    let (ts, parsed, _, window) =
      validate_sound mac a now body req (omega arith) (omega arith)
        (rw (default_authenticator o e) at h) in
    (
      ts,
      parsed,
      elim window [
        | inl (inl (_, past, ahead), _) ↦ inl (past, ahead)
        | inl (inr (off, _), _) ↦ absurd (omega arith)
        | inr far ↦ inr far
      ],
    )

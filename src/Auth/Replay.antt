-- ===== src/Auth/Replay.antt =====
-- What `Validate` does with a request that it has accepted before (authhmac/authhmac.go).
use glider_client_go.Common.{◌-◌, ◌^◌, ◌<◌, ◌≡◌, some, Bytes, ok}
use glider_client_go.Common.Int.{ℤ, pos_part}
use glider_client_go.Std.Decimal.{parse_int}
use glider_client_go.Std.Time.{Instant, unix}
use glider_client_go.Auth.{Authhmac, Hmac, validate}
use glider_client_go.Auth.Window.{IsFresh, check_clock_iff}
use glider_client_go.Auth.RoundTrip.{validate_iff, validate-Accepts, IsFresh-near}

-- An accepted request is accepted again, as often as it comes, at every moment at which its timestamp
-- is fresh: neither its nonce nor anything else of it is remembered. The bounds are below the largest
-- duration.
validate_replay :
    (mac : Bytes → Bytes → Bytes) (a : Authhmac) (now again : Instant) (body : Bytes) (req : Hmac)
    (ts : ℤ)
    → pos_part a.skew < 2 ^ 63 - 1
    → pos_part a.ttl < 2 ^ 63 - 1
    → validate mac a now body req ≡ ok tt
    → parse_int req.timestamp ≡ some ts
    → IsFresh a again (unix ts)
    → validate mac a again body req ≡ ok tt
validate_replay mac a now again body req ts hs ht h e fresh =
    let (ts', (parsed, positive, _, _, signed)) = (validate_iff mac a now body req).0 h in
    let same : ts' ≡ ts = cc (e, parsed) in
    let (skew, ttl) =
      (check_clock_iff a again (unix ts) hs ht (IsFresh-near a again (unix ts) hs fresh)).1 fresh in
    validate-Accepts mac a again body req ts (e, rw same at positive, skew, ttl, rw same at signed)

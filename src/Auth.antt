-- ===== src/Auth.antt =====
-- authhmac/authhmac.go: signed request envelopes with replay protection. A duration of the
-- options is an integer of nanoseconds; HMAC-SHA256 is the parameter `mac`, by secret and payload,
-- and crypto/rand the parameter `rand_read`, which fills a buffer of a given size or fails.
pub mod Payload
pub mod Window
pub mod RoundTrip
pub mod Shape
pub mod Replay
mod Examples
use glider_client_go.Common.{
  ℕ, zero, suc, ◌+◌, ◌-◌, ◌%◌, ◌^◌, ◌≡◌, refl, Bool, true, false, not, List, [], ◌∷◌, Option, none,
  some, arith, length, Bytes, lit, str_eq, ltb, leb, ◌==◌, if◌then◌else◌, Result, ok, err, ◌>>=◌,
  ◌>>◌, reject_if,
}
use glider_client_go.Common.Int.{ℤ, pos, negsuc, pos_part, ltb_ℤ}
use glider_client_go.Std.Buffers.{big_endian, make_bytes, copy_at}
use glider_client_go.Std.Hex.{encode_to_string, decode_string}
use glider_client_go.Std.Decimal.{parse_int, format_int}
use glider_client_go.Std.Time.{
  Instant, Duration, unix, unix_of, sub_time, abs_duration, age_of, after,
}

pub record Hmac : Type 0 where
  pub signature : Bytes
  pub nonce : Bytes
  pub timestamp : Bytes

pub record Options : Type 0 where
  pub skew : Duration
  pub ttl : Duration
  pub secret : Bytes

pub record Authhmac : Type 0 where
  pub skew : Duration
  pub ttl : Duration
  pub secret : Bytes

pub data AuthError : Type 0 where
  invalid_timestamp skew_too_large in_the_future too_old invalid_signature nonce_failed : AuthError

unfoldable pub new_auth : Options → Authhmac
new_auth opt = record { skew = opt.skew; ttl = opt.ttl; secret = opt.secret }

-- `uint64(ts)` of an int64
abbrev pub uint64_of : ℤ → ℕ
uint64_of (pos n) = n % 2 ^ 64
uint64_of (negsuc n) = (2 ^ 64 - 1 - n) % 2 ^ 64

-- The writes into `out` at the running index `i`, as the code makes them.
unfoldable pub build_payload : Bytes → ℤ → Bytes → Bytes
build_payload data' ts nonce =
    let total = 4 + length data' + 8 + 2 + length nonce in
    let out = copy_at (make_bytes total) 0 (big_endian 4 (length data' % 2 ^ 32)) in
    let i : ℕ = 4 in
    let out = copy_at out i data' in
    let i = i + length data' in
    let out = copy_at out i (big_endian 8 (uint64_of ts)) in
    let i = i + 8 in
    let out = copy_at out i (big_endian 2 (length nonce % 2 ^ 16)) in
    let i = i + 2 in copy_at out i nonce

-- The clock checks of `Validate`: the drift, or the future alone when no skew is set ...
unfoldable pub check_skew : Authhmac → Instant → Instant → Result AuthError (Unit {0})
check_skew a now created_at =
    if ltb_ℤ (pos 0) a.skew
    then reject_if (ltb_ℤ a.skew (abs_duration (sub_time now created_at))) skew_too_large
    else reject_if (after created_at now) in_the_future

-- ... and the age.
unfoldable pub check_ttl : Authhmac → Instant → Instant → Result AuthError (Unit {0})
check_ttl a now created_at =
    if ltb_ℤ (pos 0) a.ttl then reject_if (ltb_ℤ a.ttl (age_of now created_at)) too_old else ok tt

abbrev pub or_err {ℓ} : {A : Type ℓ} → Option A → AuthError → Result AuthError A
or_err none e = err e
or_err (some a) e = ok a

module _ (mac : Bytes → Bytes → Bytes) where
  unfoldable pub validate : Authhmac → Instant → Bytes → Hmac → Result AuthError (Unit {0})
  validate a now data' req = do
    ts ← or_err (parse_int req.timestamp) invalid_timestamp
    reject_if (not (ltb_ℤ (pos 0) ts)) invalid_timestamp
    check_skew a now (unix ts)
    check_ttl a now (unix ts)
    sig_raw ← or_err (decode_string req.signature) invalid_signature
    reject_if (not (str_eq (mac a.secret (build_payload data' ts req.nonce)) sig_raw))
        invalid_signature

  unfoldable pub generate_signature : Bytes → Bytes → Bytes
  generate_signature secret payload = encode_to_string (mac secret payload)

module _ (rand_read : ℕ → Option Bytes) where
  unfoldable pub generate_nonce : ℤ → Result AuthError Bytes
  generate_nonce size =
      let size' = if ltb_ℤ (pos 0) size then pos_part size else 16 in
      or_err (rand_read size') nonce_failed >>= λ buf. ok (encode_to_string buf)

module _ (mac : Bytes → Bytes → Bytes) (rand_read : ℕ → Option Bytes) where
  unfoldable pub generate : Authhmac → Instant → Bytes → Result AuthError Hmac
  generate a now data' = do
    nonce ← generate_nonce rand_read (pos 16)
    let payload = build_payload data' (unix_of now) nonce
    ok (record {
      signature = generate_signature mac a.secret payload;
      nonce = nonce;
      timestamp = format_int (unix_of now);
    })

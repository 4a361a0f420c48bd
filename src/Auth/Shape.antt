-- ===== src/Auth/Shape.antt =====
-- The form of a signed envelope (authhmac/authhmac.go, Generate).
use glider_client_go.Common.{
  ℕ, ◌^◌, ◌<◌, ◌≡◌, Option, none, some, arith, Bytes, ok, >>=-eq-ok, length, All,
}
use glider_client_go.Common.Int.{pos, ◌<ℤ◌}
use glider_client_go.Std.Hex.{
  IsHexDigit, encode_to_string, length-encode_to_string, encode_to_string-IsHexDigit,
}
use glider_client_go.Std.Decimal.{parse_int}
use glider_client_go.Std.Time.{Instant, unix_of}
use glider_client_go.Auth.{
  Authhmac, Hmac, AuthError, or_err, build_payload, generate, generate_nonce,
}
use glider_client_go.Auth.RoundTrip.{IsMac, generate_parts, parse_int-format_pos}

-- What crypto/rand fills a buffer of `n` bytes with.
abbrev pub IsRandom : (ℕ → Option Bytes) → Type 0
IsRandom rand_read =
    (n : ℕ) (bs : Bytes) → rand_read n ≡ some bs → (length bs ≡ n) × All (λ b. b < 256) bs

-- `n` lowercase hexadecimal digits.
abbrev pub IsHex : ℕ → Bytes → Type 0
IsHex n bs = (length bs ≡ n) × All IsHexDigit bs

or_err-eq-ok {ℓ} :
    {A : Type ℓ} (o : Option A) (e : AuthError) (a : A) → or_err o e ≡ ok a → o ≡ some a
or_err-eq-ok none e a h = cc
or_err-eq-ok (some b) e a h = cc

module _ (mac : Bytes → Bytes → Bytes) (rand_read : ℕ → Option Bytes) where
  generate_nonce-IsHex :
      (nonce : Bytes)
      → IsRandom rand_read
      → generate_nonce rand_read (pos 16) ≡ ok nonce
      → IsHex 32 nonce
  unfolding generate_nonce
  generate_nonce-IsHex nonce random e =
      let (buf, read, made) = >>=-eq-ok (or_err (rand_read 16) AuthError.nonce_failed) _ e in
      let (n, bytes) =
        random 16 buf (or_err-eq-ok (rand_read 16) AuthError.nonce_failed buf read) in
      let hex : nonce ≡ encode_to_string buf = cc made in
      (
        rw hex (omega (arith, n, length-encode_to_string buf)),
        rw hex (encode_to_string-IsHexDigit buf bytes),
      )

  -- What `Generate` signs has the form of the envelope: a nonce of 32 lowercase hexadecimal digits, a
  -- signature of 64, and a timestamp that reads as the Unix time, if HMAC-SHA256 yields 32 bytes, the
  -- random source fills the buffer, and the time is positive and below 2 ^ 62.
  pub generate_shape :
      (a : Authhmac) (now : Instant) (body : Bytes) (req : Hmac)
      → IsMac mac
      → ((secret payload : Bytes) → length (mac secret payload) ≡ 32)
      → IsRandom rand_read
      → pos 0 <ℤ unix_of now
      → unix_of now <ℤ pos (2 ^ 62)
      → generate mac rand_read a now body ≡ ok req
      → IsHex 32 req.nonce × IsHex 64 req.signature × (parse_int req.timestamp ≡ some (unix_of now))
  unfolding generate
  generate_shape a now body req is_mac digest random lo hi made =
      let (stamp, sig) = generate_parts mac rand_read a now body req made in
      let (nonce, drawn, e) = >>=-eq-ok (generate_nonce rand_read (pos 16)) _ made in
      let same : req.nonce ≡ nonce = ground (arith, e) in
      let raw = mac a.secret (build_payload body (unix_of now) req.nonce) in
      (
        rw same (generate_nonce-IsHex nonce random drawn),
        (
          rw sig (
              omega (
                arith,
                digest a.secret (build_payload body (unix_of now) req.nonce),
                length-encode_to_string raw,
              )),
          rw sig (encode_to_string-IsHexDigit raw (is_mac _ _)),
        ),
        rw stamp (parse_int-format_pos (unix_of now) lo hi),
      )

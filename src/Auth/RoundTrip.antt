-- ===== src/Auth/RoundTrip.antt =====
-- What `Validate` accepts, and that it accepts what `Generate` signs (authhmac/authhmac.go).
use glider_client_go.Common.{
  ℕ, ◌+◌, ◌-◌, ◌^◌, ◌≤◌, ◌<◌, ◌≡◌, ◌≢◌, ◌↔◌, ◌⊎◌, inl, inr, ap, not, arith, Bool-cases,
  Option-cases, Option, none, some, ok, err, ◌>>=◌, ◌>>◌, reject_if, Result, Bytes, >>=-eq-ok,
  str_eq, str_eq_iff, length, All,
}
use native.Mathlib.Decide.{dec_lt}
use glider_client_go.Common.Int.{ℤ, pos, negsuc, pos_part, neg_part, ltb_ℤ, ◌<ℤ◌}
use glider_client_go.Std.Hex.{decode_string, encode_to_string, decode_string-encode_to_string}
use glider_client_go.Std.Decimal.{parse_int, format_int, parse_int-format_int, parse_int-IsI64}
use glider_client_go.Std.Time.{Instant, unix, unix_of}
use glider_client_go.Auth.{
  Authhmac, Hmac, AuthError, invalid_timestamp, invalid_signature, or_err, check_skew, check_ttl,
  validate, generate, generate_nonce, generate_signature, build_payload,
}
use glider_client_go.Auth.Payload.{build_payload_inj}
use glider_client_go.Auth.Window.{IsFresh, check_clock_iff, check_clock_far}

-- The checks behind the parsed timestamp, for known outcomes of the clock checks.
checks_iff :
    (ts : ℤ) (skew ttl : Result AuthError (Unit {0})) (sig : Option Bytes) (expected : Bytes)
    → ((do
      reject_if (not (ltb_ℤ (pos 0) ts)) invalid_timestamp
      skew
      ttl
      sig_raw ← or_err sig invalid_signature
      reject_if (not (str_eq expected sig_raw)) invalid_signature)
        ≡ ok tt)
      ↔ ((pos 0 <ℤ ts) × (skew ≡ ok tt) × (ttl ≡ ok tt) × (sig ≡ some expected))
checks_iff ts (err e) ttl sig expected = ground arith
checks_iff ts (ok _) (err e) sig expected = ground arith
checks_iff ts (ok _) (ok _) none expected = ground arith
checks_iff ts (ok _) (ok _) (some s) expected = ground (arith, str_eq_iff expected s)

-- A MAC yields bytes.
abbrev pub IsMac : (Bytes → Bytes → Bytes) → Type 0
IsMac mac = (secret payload : Bytes) → All (λ b. b < 256) (mac secret payload)

module _ (mac : Bytes → Bytes → Bytes) where
  -- What `Validate` looks for, at the parsed time `ts`.
  abbrev pub Accepts : Authhmac → Instant → Bytes → Hmac → ℤ → Type 0
  Accepts a now body req ts =
      (parse_int req.timestamp ≡ some ts)
      × (pos 0 <ℤ ts)
      × (check_skew a now (unix ts) ≡ ok tt)
      × (check_ttl a now (unix ts) ≡ ok tt)
      × (decode_string req.signature ≡ some (mac a.secret (build_payload body ts req.nonce)))

  pub validate-Accepts :
      (a : Authhmac) (now : Instant) (body : Bytes) (req : Hmac) (ts : ℤ)
      → Accepts a now body req ts
      → validate mac a now body req ≡ ok tt
  unfolding validate
  validate-Accepts a now body req ts (parsed, positive, skew, ttl, signed) =
      rw (parsed, validate)
        ((checks_iff ts (check_skew a now (unix ts)) (check_ttl a now (unix ts))
            (decode_string req.signature) (mac a.secret (build_payload body ts req.nonce))).1
          (positive, skew, ttl, signed))

  -- `Validate` accepts exactly the requests with a positive int64 for a timestamp at which the
  -- clock checks pass, and the hexadecimal form of the MAC of the payload for a signature.
  pub validate_iff :
      (a : Authhmac) (now : Instant) (body : Bytes) (req : Hmac)
      → (validate mac a now body req ≡ ok tt) ↔ ((ts : ℤ) × Accepts a now body req ts)
  unfolding validate
  validate_iff a now body req = (λ h. first h, λ s. validate-Accepts a now body req s.0 s.1)
    where
      first : validate mac a now body req ≡ ok tt → (ts : ℤ) × Accepts a now body req ts
      first h = elim (Option-cases (parse_int req.timestamp)) [
        | inl e ↦ cc (rw (e, validate) at h)
        | inr (ts, e) ↦
            let (positive, skew, ttl, signed) =
              (checks_iff ts (check_skew a now (unix ts)) (check_ttl a now (unix ts))
                  (decode_string req.signature) (mac a.secret (build_payload body ts req.nonce))).0
                (rw (e, validate) at h) in
            (ts, (e, positive, skew, ttl, signed))
      ]

  -- Two different texts with one MAC.
  abbrev pub Collide : Bytes → Bytes → Bytes → Type 0
  Collide secret p p' = (p ≢ p') × (mac secret p ≡ mac secret p')

  -- Two accepted requests for data shorter than 2 ^ 32 bytes that carry one signature are one
  -- request (data, time and nonce), or the payloads that are built of the two, at the times that
  -- their timestamps parse to, differ and have the same MAC under the secret.
  pub same_signature :
      (a : Authhmac) (now now' : Instant) (body body' : Bytes) (req req' : Hmac)
      → length body < 2 ^ 32
      → length body' < 2 ^ 32
      → validate mac a now body req ≡ ok tt
      → validate mac a now' body' req' ≡ ok tt
      → req.signature ≡ req'.signature
      → ((body ≡ body')
          × (parse_int req.timestamp ≡ parse_int req'.timestamp)
          × (req.nonce ≡ req'.nonce))
        ⊎ ((ts : ℤ) × (ts' : ℤ) × (parse_int req.timestamp ≡ some ts)
            × (parse_int req'.timestamp ≡ some ts')
            × Collide a.secret
                (build_payload body ts req.nonce)
                (build_payload body' ts' req'.nonce))
  same_signature a now now' body body' req req' hl hl' h h' e =
      decide ((validate_iff a now body req).0 h) ((validate_iff a now' body' req').0 h')
    where
      decide :
          ((ts : ℤ) × Accepts a now body req ts)
          → ((ts : ℤ) × Accepts a now' body' req' ts)
          → ((body ≡ body')
              × (parse_int req.timestamp ≡ parse_int req'.timestamp)
              × (req.nonce ≡ req'.nonce))
            ⊎ ((ts : ℤ) × (ts' : ℤ) × (parse_int req.timestamp ≡ some ts)
                × (parse_int req'.timestamp ≡ some ts')
                × Collide a.secret
                    (build_payload body ts req.nonce)
                    (build_payload body' ts' req'.nonce))
      decide (ts, (t, _, _, _, s)) (ts', (t', _, _, _, s')) =
          let p = build_payload body ts req.nonce in
          let p' = build_payload body' ts' req'.nonce in
          elim (Bool-cases (str_eq p p')) [
            | inl same ↦
                let (d, u, n) =
                  build_payload_inj body body' ts ts' req.nonce req'.nonce hl hl'
                    (parse_int-IsI64 req.timestamp ts t) (parse_int-IsI64 req'.timestamp ts' t')
                    ((str_eq_iff p p').0 same) in
                inl (d, (cc (t, t', u)), n)
            | inr differ ↦ inr (
              ts,
              ts',
              t,
              t',
              ((λ q. cc (differ, (str_eq_iff p p').1 q)), (cc (s, s', ap decode_string e))),
            )
          ]

pub parse_int-format_pos :
    (t : ℤ) → pos 0 <ℤ t → t <ℤ pos (2 ^ 62) → parse_int (format_int t) ≡ some t
parse_int-format_pos (pos n) h k = parse_int-format_int n (omega arith)
parse_int-format_pos (negsuc n) h k = absurd (omega arith)

-- A fresh request lies less than 2 ^ 63 ns in the future.
pub IsFresh-near :
    (a : Authhmac) (now u : Instant)
    → pos_part a.skew < 2 ^ 63 - 1
    → IsFresh a now u
    → pos_part u + neg_part now < pos_part now + neg_part u + 2 ^ 63
IsFresh-near a now u hs (inl (_, _, ahead), _) = omega arith
IsFresh-near a now u hs (inr (_, past), _) = omega arith

module _ (mac : Bytes → Bytes → Bytes) (rand_read : ℕ → Option Bytes) where
  -- What `Generate` returns.
  pub generate_parts :
      (a : Authhmac) (now : Instant) (body : Bytes) (req : Hmac)
      → generate mac rand_read a now body ≡ ok req
      → (req.timestamp ≡ format_int (unix_of now))
        × (req.signature
            ≡ encode_to_string (mac a.secret (build_payload body (unix_of now) req.nonce)))
  unfolding generate generate_signature
  generate_parts a now body req made =
      let (nonce, _, e) = >>=-eq-ok (generate_nonce rand_read (pos 16)) _ made in ground (arith, e)

  -- A request that `Generate` signs at time `now` is accepted at every time `later` at which it is
  -- fresh by the checker's options, if both sides share the secret, the MAC yields bytes, the Unix
  -- time is positive and below 2 ^ 62, and the bounds are below the largest duration.
  pub validate-generate :
      (a b : Authhmac) (now later : Instant) (body : Bytes) (req : Hmac)
      → IsMac mac
      → generate mac rand_read a now body ≡ ok req
      → a.secret ≡ b.secret
      → pos 0 <ℤ unix_of now
      → unix_of now <ℤ pos (2 ^ 62)
      → pos_part b.skew < 2 ^ 63 - 1
      → pos_part b.ttl < 2 ^ 63 - 1
      → IsFresh b later (unix (unix_of now))
      → validate mac b later body req ≡ ok tt
  validate-generate a b now later body req is_mac made secret positive small hs ht fresh =
      let (stamp, sig) = generate_parts a now body req made in
      let (skew, ttl) =
        (check_clock_iff b later (unix (unix_of now)) hs ht
            (IsFresh-near b later (unix (unix_of now)) hs fresh)).1
          fresh in
      validate-Accepts mac b later body req (unix_of now) (
        rw stamp (parse_int-format_pos (unix_of now) positive small),
        positive,
        skew,
        ttl,
        rw (sig, secret) (decode_string-encode_to_string _ (is_mac _ _)),
      )

  -- A request that `Generate` signs is accepted at every time that lies 2 ^ 63 ns or more before its
  -- timestamp, whatever the TTL, and whatever the skew if one is set; both sides share the secret, the
  -- MAC yields bytes, and the Unix time of the signature is positive and below 2 ^ 62.
  pub validate_far_future :
      (a b : Authhmac) (now later : Instant) (body : Bytes) (req : Hmac)
      → IsMac mac
      → generate mac rand_read a now body ≡ ok req
      → a.secret ≡ b.secret
      → pos 0 <ℤ unix_of now
      → unix_of now <ℤ pos (2 ^ 62)
      → pos 0 <ℤ b.skew
      → pos_part later + neg_part (unix (unix_of now)) + 2 ^ 63
        ≤ pos_part (unix (unix_of now)) + neg_part later
      → validate mac b later body req ≡ ok tt
  validate_far_future a b now later body req is_mac made secret positive small hs far =
      let (stamp, sig) = generate_parts a now body req made in
      let (skew, ttl) = check_clock_far b later (unix (unix_of now)) hs far in
      validate-Accepts mac b later body req (unix_of now) (
        rw stamp (parse_int-format_pos (unix_of now) positive small),
        positive,
        skew,
        ttl,
        rw (sig, secret) (decode_string-encode_to_string _ (is_mac _ _)),
      )

module _ (mac : Bytes → Bytes → Bytes) where
  -- An accepted request carries the MAC of its payload, and at its time it is fresh by the options
  -- or at least 2 ^ 63 ns in the future, if the bounds are below the largest duration.
  pub validate_sound :
      (a : Authhmac) (now : Instant) (body : Bytes) (req : Hmac)
      → pos_part a.skew < 2 ^ 63 - 1
      → pos_part a.ttl < 2 ^ 63 - 1
      → validate mac a now body req ≡ ok tt
      → (ts : ℤ) × (parse_int req.timestamp ≡ some ts)
        × (decode_string req.signature ≡ some (mac a.secret (build_payload body ts req.nonce)))
        × (IsFresh a now (unix ts)
            ⊎ (pos_part now + neg_part (unix ts) + 2 ^ 63 ≤ pos_part (unix ts) + neg_part now))
  validate_sound a now body req hs ht h =
      let (ts, (parsed, _, skew, ttl, signed)) = (validate_iff mac a now body req).0 h in
      let d = pos_part now + neg_part (unix ts) + 2 ^ 63 in
      (
        ts,
        parsed,
        signed,
        elim (dec_lt (pos_part (unix ts) + neg_part now) d) [
          | yes near ↦ inl ((check_clock_iff a now (unix ts) hs ht (omega arith)).0 (skew, ttl))
          | no far ↦ inr (omega arith)
        ],
      )

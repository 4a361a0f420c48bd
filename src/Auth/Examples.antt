-- ===== src/Auth/Examples.antt =====
-- Tests of authhmac/authhmac.go, and its theorems at inputs, with a sum for a MAC.
use glider_client_go.Common.{
  ℕ, zero, suc, ◌+◌, ◌*◌, ◌%◌, ◌^◌, ◌≤◌, ◌<◌, ◌≡◌, ◌⊎◌, inl, inr, refl, [], ◌∷◌, All, Option, some,
  arith, Bytes, lit, str_eq, ok, err, length,
}
use glider_client_go.Common.Int.{ℤ, pos, pos_part, neg_part, ◌-ℤ◌}
use glider_client_go.Std.Buffers.{big_endian, make_bytes, copy_at}
use glider_client_go.Std.Hex.{encode_to_string, decode_string}
use glider_client_go.Std.Decimal.{parse_int, format_int}
use glider_client_go.Std.Time.{Instant, unix, unix_of, second, sub_time, abs_duration, age_of}
use glider_client_go.Auth.{
  Authhmac, Hmac, AuthError, build_payload, validate, generate, generate_nonce, generate_signature,
  check_skew, check_ttl,
}
use glider_client_go.Auth.Window.{IsFresh}
use glider_client_go.Auth.Shape.{IsRandom, IsHex, generate_shape}
use glider_client_go.Auth.RoundTrip.{
  Collide, IsMac, same_signature, validate-generate, validate_far_future, validate_sound,
}

abbrev sum_mac : Bytes → Bytes → Bytes
sum_mac secret payload = (length secret + length payload) % 256 ∷ []

sum_mac-IsMac : IsMac sum_mac
sum_mac-IsMac secret payload = (omega arith, tt)

-- Not random.
abbrev sevens : ℕ → Option Bytes
sevens n = some (bytes n)
  where
    bytes : ℕ → Bytes
    bytes zero = []
    bytes (suc k) = 7 ∷ bytes k

abbrev shared : Authhmac
shared = record { skew = pos (30 * second); ttl = pos (60 * second); secret = lit "key" }

abbrev noon : Instant
noon = pos (1_700_000_000 * second + 5)

abbrev later : Instant
later = pos (1_700_000_010 * second)

abbrev ping : Bytes
ping = lit "ping"

abbrev signed : Hmac
signed = record {
  signature = lit "35";
  nonce = lit "07070707070707070707070707070707";
  timestamp = lit "1700000000";
}

signed_lem : generate sum_mac sevens shared noon ping ≡ ok signed
unfolding generate generate_nonce generate_signature build_payload encode_to_string format_int
    unix_of big_endian make_bytes copy_at
signed_lem = refl

validate-generate_example : validate sum_mac shared later ping signed ≡ ok tt
unfolding unix unix_of
validate-generate_example =
    validate-generate sum_mac sevens shared shared noon later ping signed sum_mac-IsMac signed_lem
      refl (omega arith) (omega arith) (omega arith) (omega arith)
      (inl (omega arith, omega arith, omega arith), inr (omega arith))

ping_accepted : validate sum_mac shared later ping signed ≡ ok tt
unfolding validate parse_int check_skew check_ttl unix sub_time abs_duration age_of ◌-ℤ◌
    decode_string build_payload big_endian make_bytes copy_at str_eq
ping_accepted = refl

-- Twenty seconds after the TTL and the skew have run out.
abbrev too_late : Instant
too_late = pos (1_700_000_080 * second)

late_rejected : validate sum_mac shared too_late ping signed ≡ err AuthError.skew_too_large
unfolding validate parse_int check_skew check_ttl unix sub_time abs_duration ◌-ℤ◌
late_rejected = refl

validate_sound_example :
    (ts : ℤ) × (parse_int signed.timestamp ≡ some ts)
    × (decode_string signed.signature
        ≡ some (sum_mac shared.secret (build_payload ping ts signed.nonce)))
    × (IsFresh shared later (unix ts)
        ⊎ (pos_part later + neg_part (unix ts) + 2 ^ 63 ≤ pos_part (unix ts) + neg_part later))
validate_sound_example =
    validate_sound sum_mac shared later ping signed (omega arith) (omega arith) ping_accepted

same_signature_example :
    ((ping ≡ ping)
      × (parse_int signed.timestamp ≡ parse_int signed.timestamp)
      × (signed.nonce ≡ signed.nonce))
    ⊎ ((ts : ℤ) × (ts' : ℤ) × (parse_int signed.timestamp ≡ some ts)
        × (parse_int signed.timestamp ≡ some ts')
        × Collide sum_mac shared.secret
            (build_payload ping ts signed.nonce)
            (build_payload ping ts' signed.nonce))
same_signature_example =
    same_signature sum_mac shared later later ping ping signed signed (omega arith) (omega arith)
      ping_accepted ping_accepted refl

abbrev sevens_of : ℕ → Bytes
sevens_of zero = []
sevens_of (suc k) = 7 ∷ sevens_of k

length-sevens_of : (n : ℕ) → length (sevens_of n) ≡ n
length-sevens_of zero = refl
length-sevens_of (suc k) = omega (arith, length-sevens_of k)

sevens_of-All : (n : ℕ) → All (λ b. b < 256) (sevens_of n)
sevens_of-All zero = tt
sevens_of-All (suc k) = (omega arith, sevens_of-All k)

-- A digest of 32 bytes, and a source that fills each buffer.
abbrev constant_mac : Bytes → Bytes → Bytes
constant_mac secret payload = sevens_of 32

abbrev filled : ℕ → Option Bytes
filled n = some (sevens_of n)

filled-IsRandom : IsRandom filled
filled-IsRandom n bs e =
    let same : bs ≡ sevens_of n = cc e in rw same (length-sevens_of n, sevens_of-All n)

abbrev sevens_signed : Hmac
sevens_signed = record {
  signature = lit "0707070707070707070707070707070707070707070707070707070707070707";
  nonce = lit "07070707070707070707070707070707";
  timestamp = lit "1700000000";
}

sevens_signed_lem : generate constant_mac filled shared noon ping ≡ ok sevens_signed
unfolding generate generate_nonce generate_signature build_payload encode_to_string format_int
    unix_of big_endian make_bytes copy_at
sevens_signed_lem = refl

generate_shape_example :
    IsHex 32 sevens_signed.nonce
    × IsHex 64 sevens_signed.signature
    × (parse_int sevens_signed.timestamp ≡ some (unix_of noon))
unfolding unix_of
generate_shape_example =
    generate_shape constant_mac filled shared noon ping sevens_signed
      (λ secret payload. sevens_of-All 32) (λ secret payload. refl) filled-IsRandom (omega arith)
      (omega arith) sevens_signed_lem

-- More than 292 years before the signature.
abbrev far_noon : Instant
far_noon = pos (10_000_000_000 * second)

abbrev far_signed : Hmac
far_signed = record signed { timestamp = lit "10000000000" }

far_signed_lem : generate sum_mac sevens shared far_noon ping ≡ ok far_signed
unfolding generate generate_nonce generate_signature build_payload encode_to_string format_int
    unix_of big_endian make_bytes copy_at
far_signed_lem = refl

validate_far_future_example : validate sum_mac shared (pos 0) ping far_signed ≡ ok tt
unfolding unix unix_of
validate_far_future_example =
    validate_far_future sum_mac sevens shared shared far_noon (pos 0) ping far_signed sum_mac-IsMac
      far_signed_lem refl (omega arith) (omega arith) (omega arith) (omega arith)

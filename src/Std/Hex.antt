-- ===== src/Std/Hex.antt =====
-- encoding/hex: `EncodeToString` and `DecodeString`.
use glider_client_go.Common.{
  ℕ, ◌+◌, ◌-◌, ◌*◌, ◌/◌, ◌%◌, ◌<◌, ◌≤◌, ◌⊎◌, ◌≡◌, refl, ap, ◌&&◌, [], ◌∷◌, Option, none, some,
  arith, length, Bytes, All, ltb, leb, if◌then◌else◌,
}

-- "0123456789abcdef"[d]
hex_digit : ℕ → ℕ
hex_digit d = if ltb d 10 then d + b'0' else d - 10 + b'a'

unfoldable pub encode_to_string : Bytes → Bytes
unfolding hex_digit
encode_to_string [] = []
encode_to_string (b ∷ bs) = hex_digit (b / 16) ∷ hex_digit (b % 16) ∷ encode_to_string bs

-- The value of a hexadecimal digit, of either case.
from_hex_char : ℕ → Option ℕ
from_hex_char c =
    if leb b'0' c && leb c b'9'
    then some (c - b'0')
    else if leb b'a' c && leb c b'f'
    then some (c - b'a' + 10)
    else if leb b'A' c && leb c b'F'
    then some (c - b'A' + 10)
    else none

from_hex_pair : Option ℕ → Option ℕ → Option Bytes → Option Bytes
from_hex_pair (some h) (some l) (some rest) = some ((h * 16 + l) ∷ rest)
from_hex_pair _ _ _ = none

-- `none` is the error: an odd length or a byte that is no digit.
unfoldable pub decode_string : Bytes → Option Bytes
unfolding from_hex_char from_hex_pair
decode_string [] = some []
decode_string (c ∷ []) = none
decode_string (c ∷ d ∷ cs) = from_hex_pair (from_hex_char c) (from_hex_char d) (decode_string cs)

from_hex_char-hex_digit : (d : ℕ) → d < 16 → from_hex_char (hex_digit d) ≡ some d
unfolding from_hex_char hex_digit
from_hex_char-hex_digit d h = ground arith

-- What was encoded is decoded, byte for byte.
pub decode_string-encode_to_string :
    (bs : Bytes) → All (λ b. b < 256) bs → decode_string (encode_to_string bs) ≡ some bs
unfolding decode_string encode_to_string
decode_string-encode_to_string [] h = refl
decode_string-encode_to_string (b ∷ bs) h =
    rw
      (
        from_hex_char-hex_digit (b / 16) (omega arith),
        from_hex_char-hex_digit (b % 16) (omega arith),
        decode_string-encode_to_string bs h.1,
      )
      (ap (λ (x : ℕ). some (x ∷ bs)) (omega arith))

pub length-encode_to_string : (bs : Bytes) → length (encode_to_string bs) ≡ 2 * length bs
unfolding encode_to_string
length-encode_to_string [] = refl
length-encode_to_string (b ∷ bs) = omega (arith, length-encode_to_string bs)

-- A lowercase hexadecimal digit.
abbrev pub IsHexDigit : ℕ → Type 0
IsHexDigit c = ((b'0' ≤ c) × (c ≤ b'9')) ⊎ ((b'a' ≤ c) × (c ≤ b'f'))

hex_digit-IsHexDigit : (d : ℕ) → d < 16 → IsHexDigit (hex_digit d)
unfolding hex_digit
hex_digit-IsHexDigit d h = ground arith

pub encode_to_string-IsHexDigit :
    (bs : Bytes) → All (λ b. b < 256) bs → All IsHexDigit (encode_to_string bs)
unfolding encode_to_string
encode_to_string-IsHexDigit [] h = tt
encode_to_string-IsHexDigit (b ∷ bs) h = (
  hex_digit-IsHexDigit (b / 16) (omega arith),
  (hex_digit-IsHexDigit (b % 16) (omega arith), encode_to_string-IsHexDigit bs h.1),
)

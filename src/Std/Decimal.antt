-- ===== src/Std/Decimal.antt =====
-- strconv: `ParseInt(s, 10, 64)` and `FormatInt(n, 10)`.
use native.Mathlib.Nat.{pow-suc}
use glider_client_go.Common.{
  Bool-cases, inl, inr, ℕ, zero, suc, ◌+◌, ◌-◌, ◌*◌, ◌/◌, ◌%◌, ◌^◌, ◌≤◌, ◌<◌, ◌≡◌, ap, ◌∙◌, Bool,
  ◌&&◌, [], ◌∷◌, ◌++◌, Option, none, some, arith, Bytes, ltb, leb, ◌==◌, if◌then◌else◌,
}
use glider_client_go.Common.Int.{ℤ, pos, negsuc}

abbrev is_digit : ℕ → Bool
is_digit c = leb b'0' c && leb c b'9'

-- The digits behind the sign, over the value of those already read.
parse_digits : ℕ → Bytes → Option ℕ
parse_digits acc [] = some acc
parse_digits acc (c ∷ cs) =
    let rest = parse_digits (acc * 10 + (c - b'0')) cs in if is_digit c then rest else none

parse_positive : Bytes → Option ℤ
parse_positive [] = none
parse_positive (c ∷ cs) = elim (parse_digits 0 (c ∷ cs)) [
  | none ↦ none
  | some n ↦ if ltb n (2 ^ 63) then some (pos n) else none
]

parse_negative : Bytes → Option ℤ
parse_negative [] = none
parse_negative (c ∷ cs) = elim (parse_digits 0 (c ∷ cs)) [
  | none ↦ none
  | some n ↦ if n == 0 then some (pos 0) else if leb n (2 ^ 63) then some (negsuc (n - 1)) else none
]

-- `none` is a syntax error or a value out of the range of an int64.
unfoldable pub parse_int : Bytes → Option ℤ
unfolding parse_digits parse_positive parse_negative
parse_int [] = none
parse_int (c ∷ cs) =
    if c == b'-'
    then parse_negative cs
    else if c == b'+'
    then parse_positive cs
    else parse_positive (c ∷ cs)

-- The decimal digits of a number below 10 ^ fuel.
digits_of : ℕ → ℕ → Bytes
digits_of zero n = []
digits_of (suc fuel) n =
    let more = digits_of fuel (n / 10) ++ (n % 10 + b'0') ∷ [] in
    if ltb n 10 then (n + b'0') ∷ [] else more

-- A uint64 has 20 digits at most.
unfoldable pub format_int : ℤ → Bytes
unfolding digits_of
format_int (pos n) = digits_of 20 n
format_int (negsuc n) = b'-' ∷ digits_of 20 (n + 1)

parse_digits-append :
    (acc : ℕ) (xs : Bytes) (d n : ℕ)
    → parse_digits acc xs ≡ some n
    → d < 10
    → parse_digits acc (xs ++ (d + b'0') ∷ []) ≡ some (n * 10 + d)
unfolding parse_digits
parse_digits-append acc [] d n e h = ground arith
parse_digits-append acc (c ∷ cs) d n e h =
    ground (arith, parse_digits-append (acc * 10 + (c - b'0')) cs d n)

div-lt-pow : (fuel n : ℕ) → n < 10 ^ suc (suc fuel) → n / 10 < 10 ^ suc fuel
div-lt-pow fuel n h = omega (arith, pow-suc 10 (suc fuel))

parse_digits-digits_of :
    (fuel n : ℕ) → n < 10 ^ suc fuel → parse_digits 0 (digits_of (suc fuel) n) ≡ some n
unfolding digits_of parse_digits
parse_digits-digits_of zero n h = ground arith
parse_digits-digits_of (suc fuel) n h = elim (Bool-cases (ltb n 10)) [
  | inl small ↦ rw small (ground arith)
  | inr large ↦ rw large (
      parse_digits-append 0 (digits_of (suc fuel) (n / 10)) (n % 10) (n / 10)
        (parse_digits-digits_of fuel (n / 10) (div-lt-pow fuel n h)) (omega arith)
      ∙ ap (λ (k : ℕ). some k) (omega arith))
]

-- A non-empty text whose first byte is a digit.
abbrev StartsWithDigit : Bytes → Type 0
StartsWithDigit [] = ⊥
StartsWithDigit (c ∷ cs) = (b'0' ≤ c) × (c ≤ b'9')

StartsWithDigit-append : (xs ys : Bytes) → StartsWithDigit xs → StartsWithDigit (xs ++ ys)
StartsWithDigit-append [] ys h = absurd h
StartsWithDigit-append (c ∷ cs) ys h = h

digits_of-StartsWithDigit :
    (fuel n : ℕ) → n < 10 ^ suc fuel → StartsWithDigit (digits_of (suc fuel) n)
unfolding digits_of
digits_of-StartsWithDigit zero n h = ground arith
digits_of-StartsWithDigit (suc fuel) n h = elim (Bool-cases (ltb n 10)) [
  | inl small ↦ rw small (ground arith)
  | inr large ↦ rw large (
      StartsWithDigit-append (digits_of (suc fuel) (n / 10)) _
        (digits_of-StartsWithDigit fuel (n / 10) (div-lt-pow fuel n h)))
]

parse_int-digits :
    (s : Bytes) (n : ℕ)
    → StartsWithDigit s
    → parse_digits 0 s ≡ some n
    → n < 2 ^ 63
    → parse_int s ≡ some (pos n)
unfolding parse_int
parse_int-digits [] n d e h = absurd d
parse_int-digits (c ∷ cs) n d e h = ground arith

-- A non-negative int64 is read back from its text.
pub parse_int-format_int : (n : ℕ) → n < 2 ^ 63 → parse_int (format_int (pos n)) ≡ some (pos n)
unfolding format_int
parse_int-format_int n h =
    parse_int-digits (digits_of 20 n) n (digits_of-StartsWithDigit 19 n (omega arith))
      (parse_digits-digits_of 19 n (omega arith)) h

-- An int64.
abbrev pub IsI64 : ℤ → Type 0
IsI64 (pos n) = n < 2 ^ 63
IsI64 (negsuc n) = n < 2 ^ 63

parse_positive-IsI64 : (s : Bytes) (t : ℤ) → parse_positive s ≡ some t → IsI64 t
unfolding parse_positive
parse_positive-IsI64 [] t e = cc
parse_positive-IsI64 (c ∷ cs) t e = ground arith

parse_negative-IsI64 : (s : Bytes) (t : ℤ) → parse_negative s ≡ some t → IsI64 t
unfolding parse_negative
parse_negative-IsI64 [] t e = cc
parse_negative-IsI64 (c ∷ cs) t e = ground arith

-- What is parsed is in range.
pub parse_int-IsI64 : (s : Bytes) (t : ℤ) → parse_int s ≡ some t → IsI64 t
unfolding parse_int
parse_int-IsI64 [] t e = cc
parse_int-IsI64 (c ∷ cs) t e = elim (Bool-cases (c == b'-')) [
  | inl minus ↦ parse_negative-IsI64 cs t (rw minus at e)
  | inr no_minus ↦ elim (Bool-cases (c == b'+')) [
    | inl plus ↦ parse_positive-IsI64 cs t (rw (no_minus, plus) at e)
    | inr no_plus ↦ parse_positive-IsI64 (c ∷ cs) t (rw (no_minus, no_plus) at e)
  ]
]

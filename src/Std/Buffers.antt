-- ===== src/Std/Buffers.antt =====
-- encoding/binary in big-endian order, `make([]byte, n)` and `copy` into a slice of a buffer.
use mathlib.Core.Path.{ap₂}
use native.Mathlib.Nat.{zero-add, pow-suc, div-add-mod, div-div-eq-div-mul}
use Prim.Native.Nat.add
use glider_client_go.Common.{
  ℕ, zero, suc, ◌+◌, ◌*◌, ◌/◌, ◌%◌, ◌^◌, ◌≡◌, refl, ap, [], ◌∷◌, ◌++◌, arith, length, Bytes,
}

-- `k` bytes of `v`, the highest first.
unfoldable pub big_endian : ℕ → ℕ → Bytes
big_endian zero v = []
big_endian (suc k) v = (v / 256 ^ k % 256) ∷ big_endian k v

pub length-big_endian : (k v : ℕ) → length (big_endian k v) ≡ k
unfolding big_endian
length-big_endian zero v = refl
length-big_endian (suc k) v = ap suc (length-big_endian k v)

-- `make([]byte, n)`
unfoldable pub make_bytes : ℕ → Bytes
make_bytes zero = []
make_bytes (suc n) = 0 ∷ make_bytes n

-- `copy(out[i:], src)`: it stops at the end of either.
unfoldable pub copy_at : Bytes → ℕ → Bytes → Bytes
copy_at [] i src = []
copy_at (x ∷ out) (suc i) src = x ∷ copy_at out i src
copy_at (x ∷ out) zero [] = x ∷ out
copy_at (x ∷ out) zero (s ∷ src) = s ∷ copy_at out zero src

copy_at-zero :
    (src : Bytes) (m : ℕ) → copy_at (make_bytes (length src + m)) 0 src ≡ src ++ make_bytes m
unfolding copy_at make_bytes
copy_at-zero [] zero = refl
copy_at-zero [] (suc m) = rw zero-add refl
copy_at-zero (s ∷ src) m = rw add.suc (ap (λ (r : Bytes). s ∷ r) (copy_at-zero src m))

-- A copy behind the written prefix extends the prefix.
pub copy_at-make_bytes :
    (front src : Bytes) (m : ℕ)
    → copy_at (front ++ make_bytes (length src + m)) (length front) src
      ≡ (front ++ src) ++ make_bytes m
unfolding copy_at
copy_at-make_bytes [] src m = copy_at-zero src m
copy_at-make_bytes (x ∷ front) src m = ap (λ (r : Bytes). x ∷ r) (copy_at-make_bytes front src m)

high_digit : (v p : ℕ) → v % (p * 256) ≡ v / p % 256 * p + v % p
high_digit v p = omega (
  arith,
  div-add-mod v p,
  div-add-mod v (p * 256),
  ap (λ (t : ℕ). p * 256 * t) (div-div-eq-div-mul v p 256),
  ap (λ (t : ℕ). p * t) (div-add-mod (v / p) 256),
)

-- Numbers that fit in `k` bytes are told apart by them.
pub big_endian_inj : (k v w : ℕ) → big_endian k v ≡ big_endian k w → v % 256 ^ k ≡ w % 256 ^ k
unfolding big_endian
big_endian_inj zero v w e = omega arith
big_endian_inj (suc k) v w e =
    rw (pow-suc, high_digit, high_digit)
      (ap₂ (λ (a b : ℕ). a * 256 ^ k + b) (cc) (big_endian_inj k v w (cc)))

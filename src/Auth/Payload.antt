-- ===== src/Auth/Payload.antt =====
-- The payload that is signed (authhmac/authhmac.go, buildPayload).
use glider_client_go.Common.{
  ℕ, ◌+◌, ◌%◌, ◌^◌, ◌<◌, ◌≡◌, refl, ap, ◌∙◌, [], ◌++◌, append_assoc, append-nil, arith, length,
  length-append, append_inj, Bytes,
}
use glider_client_go.Common.Int.{ℤ, pos, negsuc}
use glider_client_go.Std.Buffers.{
  big_endian, make_bytes, copy_at, length-big_endian, copy_at-make_bytes, big_endian_inj,
}
use glider_client_go.Std.Decimal.{IsI64}
use glider_client_go.Auth.{build_payload, uint64_of}

-- uint32(len(data)) | data | uint64(ts) | uint16(len(nonce)) | nonce
abbrev pub layout : Bytes → ℤ → Bytes → Bytes
layout data' ts nonce =
    big_endian 4 (length data' % 2 ^ 32)
    ++ (data' ++ (big_endian 8 (uint64_of ts) ++ (big_endian 2 (length nonce % 2 ^ 16) ++ nonce)))

write_next :
    (front src : Bytes) (i n m : ℕ)
    → i ≡ length front
    → n ≡ length src + m
    → copy_at (front ++ make_bytes n) i src ≡ (front ++ src) ++ make_bytes m
write_next front src i n m hi hn = rw (hi, hn) (copy_at-make_bytes front src m)

-- Four writes, one behind the other, over a buffer of the right size.
writes_append :
    (a b c d e : Bytes) (n : ℕ) (i j k l : ℕ)
    → n ≡ length a + length b + length c + length d + length e
    → i ≡ length a
    → j ≡ i + length b
    → k ≡ j + length c
    → l ≡ k + length d
    → copy_at (copy_at (copy_at (copy_at (copy_at (make_bytes n) 0 a) i b) j c) k d) l e
      ≡ (((a ++ b) ++ c) ++ d) ++ e
unfolding make_bytes
writes_append a b c d e n i j k l hn hi hj hk hl =
    rw
      (
        write_next [] a 0 n (length b + (length c + (length d + (length e + 0)))) refl
            (omega arith),
        write_next a b i _ (length c + (length d + (length e + 0))) hi refl,
        write_next (a ++ b) c j _ (length d + (length e + 0)) (omega (arith, length-append a b))
            refl,
        write_next ((a ++ b) ++ c) d k _ (length e + 0)
            (omega (arith, length-append a b, length-append (a ++ b) c)) refl,
        write_next (((a ++ b) ++ c) ++ d) e l _ 0
            (omega
              (arith, length-append a b, length-append (a ++ b) c, length-append ((a ++ b) ++ c) d))
            refl,
      )
      (append-nil _)

-- The writes at the running index fill the buffer: its content is the documented format.
build_payload-layout :
    (data' : Bytes) (ts : ℤ) (nonce : Bytes) → build_payload data' ts nonce ≡ layout data' ts nonce
unfolding build_payload
build_payload-layout data' ts nonce =
    writes_append (big_endian 4 (length data' % 2 ^ 32)) data' (big_endian 8 (uint64_of ts))
      (big_endian 2 (length nonce % 2 ^ 16)) nonce _ _ _ _ _
      (omega (
        arith,
        length-big_endian 4 (length data' % 2 ^ 32),
        length-big_endian 8 (uint64_of ts),
        length-big_endian 2 (length nonce % 2 ^ 16),
      ))
      (omega (arith, length-big_endian 4 (length data' % 2 ^ 32))) refl
      (omega (arith, length-big_endian 8 (uint64_of ts)))
      (omega (arith, length-big_endian 2 (length nonce % 2 ^ 16)))
    ∙ simp append_assoc

uint64_of_inj :
    (t u : ℤ) → IsI64 t → IsI64 u → uint64_of t % 256 ^ 8 ≡ uint64_of u % 256 ^ 8 → t ≡ u
uint64_of_inj (pos n) (pos m) ht hu e = ap (λ (k : ℕ). pos k) (omega arith)
uint64_of_inj (pos n) (negsuc m) ht hu e = absurd (omega arith)
uint64_of_inj (negsuc n) (pos m) ht hu e = absurd (omega arith)
uint64_of_inj (negsuc n) (negsuc m) ht hu e = ap (λ (k : ℕ). negsuc k) (omega arith)

-- Equal encodings in `k` bytes in front of two texts.
front_inj :
    (k v w : ℕ) (xs ys : Bytes)
    → big_endian k v ++ xs ≡ big_endian k w ++ ys
    → (v % 256 ^ k ≡ w % 256 ^ k) × (xs ≡ ys)
front_inj k v w xs ys e =
    let (h, t) =
      append_inj (big_endian k v) (big_endian k w) xs ys
        (omega (arith, length-big_endian k v, length-big_endian k w)) e in
    (big_endian_inj k v w h, t)

-- Two requests with one payload are one request, if the data is shorter than 2 ^ 32 bytes and the
-- timestamps are int64s. The nonces may have any length.
pub build_payload_inj :
    (d d' : Bytes) (ts ts' : ℤ) (n n' : Bytes)
    → length d < 2 ^ 32
    → length d' < 2 ^ 32
    → IsI64 ts
    → IsI64 ts'
    → build_payload d ts n ≡ build_payload d' ts' n'
    → (d ≡ d') × (ts ≡ ts') × (n ≡ n')
build_payload_inj d d' ts ts' n n' hd hd' ht ht' e =
    let (l, e₁) = front_inj 4 _ _ _ _ (rw (build_payload-layout, build_payload-layout) at e) in
    let (same_data, e₂) = append_inj d d' _ _ (omega arith) e₁ in
    let (t, e₃) = front_inj 8 _ _ _ _ e₂ in
    let (_, same_nonce) = front_inj 2 _ _ _ _ e₃ in
    (same_data, uint64_of_inj ts ts' ht ht' t, same_nonce)

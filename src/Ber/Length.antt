-- ===== src/Ber/Length.antt =====
-- The length prefix: what `readLength` accepts, and what it reads of `appendLength`.
use nano_ldap.Prelude.{
  ℕ, zero, suc, ◌+◌, ◌%◌, ◌≤◌, ◌<◌, ◌≡◌, ◌≢◌, refl, [], ◌∷◌, ◌++◌, arith, ltb, ok, err, length,
  length-append, Bool-cases, inl, inr, some, Option-cases, >>=-eq-ok, ap,
}
use nano_ldap.Text.{Bytes}
use nano_ldap.Ber.Reader.{
  stuck, take_full, read_full, read_byte, read_length, length_from, read_long_length, big_endian,
  max_packet_length, short_read,
}
use nano_ldap.Ber.Writer.{append_length}

pub take_full-append : (s rest : Bytes) → take_full (length s) (s ++ rest) ≡ some (s, rest)
unfolding take_full
take_full-append [] rest = refl
take_full-append (c ∷ s) rest = rw (take_full-append s rest)

pub read_full-append : (s rest : Bytes) → read_full (length s) (s ++ rest) ≡ ok (s, rest)
unfolding read_full
read_full-append s rest = rw (take_full-append s rest, read_full)

take_full_sound :
    (n : ℕ) (s x y : Bytes) → take_full n s ≡ some (x, y) → (s ≡ x ++ y) × (length x ≡ n)
unfolding take_full
take_full_sound zero s x y e = ground arith
take_full_sound (suc n) [] x y e = cc
take_full_sound (suc n) (c ∷ s) x y e = elim (Option-cases (take_full n s)) [
  | inl q ↦ ground arith
  | inr ((x', y'), q) ↦ ground (arith, take_full_sound n s x' y' q)
]

-- A read that succeeds takes exactly the bytes that it was asked for.
pub read_full_sound :
    (n : ℕ) (s x y : Bytes) → read_full n s ≡ ok (x, y) → (s ≡ x ++ y) × (length x ≡ n)
unfolding read_full
read_full_sound n s x y e = elim (Option-cases (take_full n s)) [
  | inl q ↦ ground arith
  | inr ((x', y'), q) ↦ ground (arith, take_full_sound n s x' y' q)
]

short_read-ne-stuck : (s : Bytes) → short_read s ≢ stuck
short_read-ne-stuck [] e = cc
short_read-ne-stuck (c ∷ s) e = cc

pub read_full-ne-stuck : (n : ℕ) (s : Bytes) → read_full n s ≢ err stuck
unfolding read_full
read_full-ne-stuck n s e = elim (Option-cases (take_full n s)) [
  | inl q ↦ ground (arith, short_read-ne-stuck s)
  | inr (p, q) ↦ ground arith
]

pub read_byte-ne-stuck : (s : Bytes) → read_byte s ≢ err stuck
unfolding read_byte
read_byte-ne-stuck [] e = cc
read_byte-ne-stuck (c ∷ s) e = cc

read_long_length-ne-stuck : (n : ℕ) (s : Bytes) → read_long_length n s ≢ err stuck
unfolding read_long_length
read_long_length-ne-stuck n s = ground (arith, read_full-ne-stuck n s)

pub read_length-ne-stuck : (s : Bytes) → read_length s ≢ err stuck
unfolding read_length length_from
read_length-ne-stuck [] e = cc
read_length-ne-stuck (b ∷ s) e = ground (arith, read_long_length-ne-stuck (b % 128) s)

read_long_length_takes :
    (k : ℕ) (s : Bytes) (n : ℕ) (rest : Bytes)
    → read_long_length k s ≡ ok (n, rest)
    → (n ≤ max_packet_length) × (length s ≡ k + length rest)
unfolding read_long_length
read_long_length_takes k s n rest e =
    let ((buf, r), q, h) = >>=-eq-ok (read_full k s) _ e in
    let (split, len) = read_full_sound k s buf r q in
    elim (Bool-cases (ltb max_packet_length (big_endian 0 buf))) [
      | inl big ↦ ground arith
      | inr fits ↦ ground (arith, ap length split, length-append buf r)
    ]

-- A length that `readLength` accepts is at most 4 MiB, and its prefix takes one to five bytes.
pub read_length_bounds :
    (s : Bytes) (n : ℕ) (rest : Bytes)
    → read_length s ≡ ok (n, rest)
    → (n ≤ max_packet_length) × (length rest < length s) × (length s ≤ length rest + 5)
unfolding read_length length_from
read_length_bounds [] n rest e = cc
read_length_bounds (b ∷ s) n rest e = ground (arith, read_long_length_takes (b % 128) s n rest)

-- What `readLength` makes of the prefix that `appendLength` writes: the length modulo 65536.
pub read_length-append_length :
    (s rest : Bytes) → read_length (append_length s ++ rest) ≡ ok (length s % 65536, s ++ rest)
unfolding read_length read_long_length read_full take_full big_endian append_length
read_length-append_length s rest = ground arith

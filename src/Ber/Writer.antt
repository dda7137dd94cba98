-- ===== src/Ber/Writer.antt =====
-- The writers of internal/ldapserver/ber.go. A byte conversion is `% 256`.
use Prim.Native.Nat.{bit_or}
use nano_ldap.Prelude.{
  ℕ, zero, suc, ◌/◌, ◌%◌, ◌^◌, Bool, List, [], ◌∷◌, ltb, leb, ◌==◌, if◌then◌else◌, length, concat,
}
use nano_ldap.Text.{Bytes}

unfoldable pub append_length : Bytes → Bytes
append_length s =
    let n = length s in
    if ltb n 128
    then n % 256 ∷ s
    else if leb n 255
    then 0x81 ∷ n % 256 ∷ s
    else 0x82 ∷ n / 256 % 256 ∷ n % 256 ∷ s

unfoldable pub ber_sequence : List Bytes → Bytes
ber_sequence parts = 0x30 ∷ append_length (concat parts)

unfoldable pub ber_set : List Bytes → Bytes
ber_set parts = 0x31 ∷ append_length (concat parts)

unfoldable pub ber_octet_string : Bytes → Bytes
ber_octet_string s = 0x04 ∷ append_length s

-- `berRawOctetString`, which takes the bytes as a slice.
unfoldable pub ber_raw_octet_string : Bytes → Bytes
ber_raw_octet_string s = 0x04 ∷ append_length s

-- `binary.BigEndian.PutUint64` in the low `n` bytes of a word.
unfoldable pub put_big_endian : ℕ → ℕ → Bytes
put_big_endian zero v = []
put_big_endian (suc n) v = v / 256 ^ n % 256 ∷ put_big_endian n v

-- The loop over `start`: leading zero bytes go, the last byte stays.
unfoldable pub drop_zeros : Bytes → Bytes
drop_zeros [] = []
drop_zeros (b ∷ []) = b ∷ []
drop_zeros (b ∷ c ∷ bs) = let rest = drop_zeros (c ∷ bs) in if b == 0 then rest else b ∷ c ∷ bs

abbrev pub pad_sign : Bytes → Bytes
pad_sign [] = []
pad_sign (b ∷ bs) = if ltb b 128 then b ∷ bs else 0 ∷ b ∷ bs

-- The content that `berInteger` writes for a 64-bit pattern.
unfoldable pub integer_content : ℕ → Bytes
unfolding put_big_endian drop_zeros
integer_content v = pad_sign (drop_zeros (put_big_endian 8 v))

unfoldable pub ber_integer : ℕ → Bytes
unfolding integer_content
ber_integer v = 0x02 ∷ append_length (integer_content v)

-- `intBytes[0] = 0x0a` on the bytes of `berInteger`.
unfoldable pub ber_enumerated : ℕ → Bytes
unfolding ber_integer
ber_enumerated v = elim (ber_integer v) [ [] ↦ [] | b ∷ bs ↦ 0x0a ∷ bs ]

unfoldable pub ber_boolean : Bool → Bytes
ber_boolean b = if b then 0x01 ∷ 0x01 ∷ 0xff ∷ [] else 0x01 ∷ 0x01 ∷ 0x00 ∷ []

unfoldable pub ber_application : ℕ → Bytes → Bytes
ber_application t s = bit_or 0x60 t % 256 ∷ append_length s

unfoldable pub ber_context_primitive : ℕ → Bytes → Bytes
ber_context_primitive t s = bit_or 0x80 t % 256 ∷ append_length s

unfoldable pub ber_message : ℕ → Bytes → Bytes
unfolding ber_sequence ber_integer append_length
ber_message id op = ber_sequence (ber_integer id ∷ op ∷ [])

-- ===== src/Ber/Reader.antt =====
-- `readPacket`, `decodePacket`, `readLength` and the accessors of a packet
-- (internal/ldapserver/ber.go), and `decodeMessages` (internal/ldapserver/debug.go).
use nano_ldap.Prelude.{
  ℕ, zero, suc, ◌+◌, ◌-◌, ◌*◌, ◌/◌, ◌%◌, ◌^◌, Bool, true, false, not, List, [], ◌∷◌, ltb, ◌==◌,
  if◌then◌else◌, Result, ok, err, ◌>>=◌, length, Option, none, some,
}
use nano_ldap.Text.{Bytes}

-- `eof` and `unexpected_eof` are io.EOF and io.ErrUnexpectedEOF. `stuck` is no Go error: the model
-- ran out of fuel.
pub data BerError : Type 0 where
  eof unexpected_eof high_tag indefinite_length length_too_large oversized : BerError
  empty_integer stuck : BerError

mutual
  pub data Packet : Type 0 where
    packet : ℕ → ℕ → Bool → Bytes → Packets → Packet

  pub data Packets : Type 0 where
    nil : Packets
    cons : Packet → Packets → Packets

abbrev pub class : Packet → ℕ
class (packet k t c s ps) = k

abbrev pub tag : Packet → ℕ
tag (packet k t c s ps) = t

abbrev pub content : Packet → Bytes
content (packet k t c s ps) = s

abbrev pub children : Packet → Packets
children (packet k t c s ps) = ps

abbrev pub count : Packets → ℕ
count nil = 0
count (cons p ps) = suc (count ps)

abbrev pub to_list : Packets → List Packet
to_list nil = []
to_list (cons p ps) = p ∷ to_list ps

abbrev pub class_universal : ℕ
class_universal = 0

abbrev pub class_application : ℕ
class_application = 1

abbrev pub class_context : ℕ
class_context = 2

abbrev pub max_packet_length : ℕ
max_packet_length = 4 * 1024 * 1024

abbrev pub BerResult : Type 0 → Type 0
BerResult A = Result BerError A

-- What follows the first `n` bytes, where there are that many.
unfoldable pub take_full : ℕ → Bytes → Option (Bytes × Bytes)
take_full zero s = some ([], s)
take_full (suc n) [] = none
take_full (suc n) (c ∷ s) =
    let rest = take_full n s in elim rest [ some (xs, after) ↦ some (c ∷ xs, after) | none ↦ none ]

-- What `io.ReadFull` says of a reader that ends too early.
abbrev pub short_read : Bytes → BerError
short_read [] = eof
short_read (c ∷ s) = unexpected_eof

-- `io.ReadFull` into a buffer of `n` bytes.
unfoldable pub read_full : ℕ → Bytes → BerResult (Bytes × Bytes)
unfolding take_full
read_full n s = elim (take_full n s) [ some p ↦ ok p | none ↦ err (short_read s) ]

unfoldable pub read_byte : Bytes → BerResult (ℕ × Bytes)
read_byte [] = err eof
read_byte (c ∷ s) = ok (c, s)

-- The loop `length = (length << 8) | int(b)` of `readLength`, over at most four bytes.
unfoldable pub big_endian : ℕ → Bytes → ℕ
big_endian acc [] = acc
big_endian acc (b ∷ bs) = big_endian (acc * 256 + b) bs

unfoldable pub read_long_length : ℕ → Bytes → BerResult (ℕ × Bytes)
unfolding read_full big_endian
read_long_length n s = do
  (buf, rest) ← read_full n s
  if ltb max_packet_length (big_endian 0 buf) then err oversized else ok (big_endian 0 buf, rest)

-- `readLength` behind its first byte.
unfoldable pub length_from : ℕ → Bytes → BerResult (ℕ × Bytes)
unfolding read_long_length
length_from first rest =
    if ltb first 128
    then ok (first, rest)
    else if first % 128 == 0
    then err indefinite_length
    else if ltb 4 (first % 128)
    then err length_too_large
    else read_long_length (first % 128) rest

unfoldable pub read_length : Bytes → BerResult (ℕ × Bytes)
unfolding read_byte length_from
read_length s = do (first, rest) ← read_byte s; length_from first rest

-- `decodePacket`, with the loop over the content as an argument.
unfoldable pub decode_packet : (Bytes → BerResult Packets) → ℕ → Bytes → BerResult Packet
decode_packet read_children b s =
    if b % 32 == 31
    then err high_tag
    else if b / 32 % 2 == 0
    then ok (packet (b / 64) (b % 32) false s nil)
    else (do ps ← read_children s; ok (packet (b / 64) (b % 32) true s ps))

-- The calls nest as deep as the packets do, and each takes a unit of fuel.
unfoldable mutual
  pub read_packet : ℕ → Bytes → BerResult (Packet × Bytes)
  read_packet zero s = err stuck
  read_packet (suc f) s = do
    (b, s₁) ← read_byte s
    (n, s₂) ← read_length s₁
    (body, s₃) ← read_full n s₂
    p ← decode_packet (read_children f) b body
    ok (p, s₃)

  -- The loop `for reader.Len() > 0` of `decodePacket`.
  pub read_children : ℕ → Bytes → BerResult Packets
  read_children zero s = err stuck
  read_children (suc f) [] = ok nil
  read_children (suc f) (c ∷ s) = do
    (p, rest) ← read_packet f (c ∷ s)
    ps ← read_children f rest
    ok (cons p ps)

-- `readPacket` on a reader that holds these bytes.
unfoldable pub read : Bytes → BerResult (Packet × Bytes)
unfolding read_packet
read s = read_packet (length s + 1) s

-- `decodeMessages`: the packets of a payload, one after the other.
unfoldable pub decode_messages : Bytes → BerResult Packets
unfolding read_packet
decode_messages s = read_children (length s + 2) s

-- A Go int is its 64-bit pattern: `value << 8 | b` drops the high byte.
unfoldable pub int_loop : ℕ → Bytes → ℕ
int_loop v [] = v
int_loop v (b ∷ bs) = int_loop ((v * 256 + b) % 2 ^ 64) bs

-- `int(int8(b))`.
abbrev pub sign_extend : ℕ → ℕ
sign_extend b = if ltb b 128 then b else 2 ^ 64 + b - 256

unfoldable pub int : Packet → BerResult ℕ
unfolding int_loop
int p = elim (content p) [ [] ↦ err empty_integer | b ∷ bs ↦ ok (int_loop (sign_extend b) bs) ]

abbrev pub str : Packet → Bytes
str p = content p

unfoldable pub boolean : Packet → Bool
boolean p = elim (content p) [ [] ↦ false | b ∷ bs ↦ not (b == 0) ]

-- The test of `expectChildren`.
abbrev pub has_children : ℕ → Packet → Bool
has_children n p = not (ltb (count (children p)) n)

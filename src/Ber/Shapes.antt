-- ===== src/Ber/Shapes.antt =====
-- The packets that the writers' bytes stand for, and that they are read back.
use Prim.Native.Nat.{bit_or}
use mathlib.Core.Path.{subst₂}
use nano_ldap.Prelude.{
  ℕ, zero, suc, ◌+◌, ◌%◌, ◌/◌, ◌<◌, ◌≡◌, refl, Bool, true, false, List, ◌∷◌, arith, ◌==◌, ◌&&◌,
  concat, ==_iff,
}
use nano_ldap.Text.{Bytes}
use nano_ldap.Ber.Reader.{Packet, Packets, packet, nil}
use nano_ldap.Ber.Writer.{
  append_length, ber_sequence, ber_set, ber_octet_string, ber_integer, ber_enumerated,
  ber_application, integer_content,
}
use nano_ldap.Ber.Integer.{length-integer_content}
use nano_ldap.Ber.RoundTrip.{Reads, ReadsAll, IsShort, Reads-primitive, Reads-constructed}

abbrev pub octet_packet : Bytes → Packet
octet_packet s = packet 0 4 false s nil

abbrev pub integer_packet : ℕ → Packet
integer_packet v = packet 0 2 false (integer_content v) nil

abbrev pub enumerated_packet : ℕ → Packet
enumerated_packet v = packet 0 10 false (integer_content v) nil

abbrev pub sequence_packet : Bytes → Packets → Packet
sequence_packet s ps = packet 0 16 true s ps

abbrev pub set_packet : Bytes → Packets → Packet
set_packet s ps = packet 0 17 true s ps

abbrev pub application_packet : ℕ → Bytes → Packets → Packet
application_packet t s ps = packet 1 t true s ps

pub Reads-ber_octet_string : (s : Bytes) → IsShort s → Reads (ber_octet_string s) (octet_packet s)
unfolding ber_octet_string
Reads-ber_octet_string s h = Reads-primitive 0x04 s (omega arith) refl h

integer_IsShort : (v : ℕ) → IsShort (integer_content v)
integer_IsShort v = omega (arith, length-integer_content v)

pub Reads-ber_integer : (v : ℕ) → Reads (ber_integer v) (integer_packet v)
unfolding ber_integer
Reads-ber_integer v =
    Reads-primitive 0x02 (integer_content v) (omega arith) refl (integer_IsShort v)

pub Reads-ber_enumerated : (v : ℕ) → Reads (ber_enumerated v) (enumerated_packet v)
unfolding ber_enumerated ber_integer
Reads-ber_enumerated v =
    Reads-primitive 0x0a (integer_content v) (omega arith) refl (integer_IsShort v)

pub Reads-ber_sequence :
    (parts : List Bytes) (ps : Packets)
    → IsShort (concat parts)
    → ReadsAll (concat parts) ps
    → Reads (ber_sequence parts) (sequence_packet (concat parts) ps)
unfolding ber_sequence
Reads-ber_sequence parts ps = Reads-constructed 0x30 (concat parts) ps (omega arith) refl

pub Reads-ber_set :
    (parts : List Bytes) (ps : Packets)
    → IsShort (concat parts)
    → ReadsAll (concat parts) ps
    → Reads (ber_set parts) (set_packet (concat parts) ps)
unfolding ber_set
Reads-ber_set parts ps = Reads-constructed 0x31 (concat parts) ps (omega arith) refl

-- The tag byte of an application packet keeps the tag in its low bits: a table of the tags below 31.
all_tags : (ℕ → Bool) → ℕ → Bool
all_tags p zero = true
all_tags p (suc n) = p n && all_tags p n

all_tags_sound : (p : ℕ → Bool) (n t : ℕ) → all_tags p n ≡ true → t < n → p t ≡ true
unfolding all_tags
all_tags_sound p zero t h lt = absurd (omega arith)
all_tags_sound p (suc n) t h lt = ground (arith, all_tags_sound p n t)

tag_table : all_tags (λ t. bit_or 0x60 t == 96 + t) 31 ≡ true
unfolding all_tags
tag_table = refl

application_byte : (t : ℕ) → t < 31 → bit_or 0x60 t ≡ 96 + t
application_byte t h =
    (==_iff _ _).0 (all_tags_sound (λ t. bit_or 0x60 t == 96 + t) 31 t tag_table h)

pub Reads-ber_application :
    (t : ℕ) (s : Bytes) (ps : Packets)
    → t < 31
    → IsShort s
    → ReadsAll s ps
    → Reads (ber_application t s) (application_packet t s ps)
unfolding ber_application
Reads-ber_application t s ps h short all =
    let k : (96 + t) % 256 / 64 ≡ 1 = omega arith in
    let m : (96 + t) % 256 % 32 ≡ t = omega arith in
    rw (application_byte t h) (
      subst₂ (λ c u. Reads (((96 + t) % 256) ∷ append_length s) (packet c u true s ps)) k m
        (Reads-constructed ((96 + t) % 256) s ps (omega arith) (omega arith) short all))

-- ===== src/Ber/RoundTrip.antt =====
-- Bytes that the writers make are read back as the packets that they stand for.
use nano_ldap.Prelude.{
  ℕ, zero, suc, ◌+◌, ◌%◌, ◌/◌, ◌<◌, ◌≡◌, ◌≢◌, refl, true, false, [], ◌∷◌, ◌++◌, arith, ok, length,
  length-append,
}
use nano_ldap.Text.{Bytes}
use nano_ldap.Ber.Reader.{
  Packet, Packets, packet, nil, cons, read_byte, decode_packet, read_packet, read_children, read,
}
use nano_ldap.Ber.Writer.{append_length}
use nano_ldap.Ber.Length.{read_full-append, read_length-append_length}

-- With enough fuel, `x` at the front of any input is read as `p`.
abbrev pub Reads : Bytes → Packet → Type 0
Reads x p = (f : ℕ) (rest : Bytes) → length x < f → read_packet f (x ++ rest) ≡ ok (p, rest)

-- With enough fuel, `s` is read to its end as the packets `ps`.
abbrev pub ReadsAll : Bytes → Packets → Type 0
ReadsAll s ps = (f : ℕ) → length s + 1 < f → read_children f s ≡ ok ps

-- A packet whose content the one-byte and two-byte lengths can state.
abbrev pub IsShort : Bytes → Type 0
IsShort s = length s < 65536

read_packet_frame :
    (f b : ℕ) (s rest : Bytes)
    → IsShort s
    → (q : Packet) → decode_packet (read_children f) b s ≡ ok q
    → read_packet (suc f) (b ∷ (append_length s ++ rest)) ≡ ok (q, rest)
unfolding read_packet read_byte
read_packet_frame f b s rest short q e =
    let n : length s % 65536 ≡ length s = omega arith in
    rw (read_length-append_length s rest, n, read_full-append s rest, e)

pub length-append_length : (s : Bytes) → length s < length (append_length s)
unfolding append_length
length-append_length s = ground arith

pub Reads-primitive :
    (b : ℕ) (s : Bytes)
    → b % 32 ≢ 31
    → b / 32 % 2 ≡ 0
    → IsShort s
    → Reads (b ∷ append_length s) (packet (b / 64) (b % 32) false s nil)
unfolding decode_packet
Reads-primitive b s high prim short zero rest h = absurd (omega arith)
Reads-primitive b s high prim short (suc f) rest h =
    read_packet_frame f b s rest short (packet (b / 64) (b % 32) false s nil) (ground arith)

pub Reads-constructed :
    (b : ℕ) (s : Bytes) (ps : Packets)
    → b % 32 ≢ 31
    → b / 32 % 2 ≡ 1
    → IsShort s
    → ReadsAll s ps
    → Reads (b ∷ append_length s) (packet (b / 64) (b % 32) true s ps)
unfolding decode_packet
Reads-constructed b s ps high con short all zero rest h = absurd (omega arith)
Reads-constructed b s ps high con short all (suc f) rest h =
    read_packet_frame f b s rest short (packet (b / 64) (b % 32) true s ps)
      (ground (arith, all f (omega (arith, length-append_length s))))

pub ReadsAll-nil : ReadsAll [] nil
unfolding read_children
ReadsAll-nil zero h = absurd (omega arith)
ReadsAll-nil (suc f) h = refl

pub ReadsAll-cons :
    (b : ℕ) (x s : Bytes) (p : Packet) (ps : Packets)
    → Reads (b ∷ x) p
    → ReadsAll s ps
    → ReadsAll ((b ∷ x) ++ s) (cons p ps)
unfolding read_children
ReadsAll-cons b x s p ps r all zero h = absurd (omega arith)
ReadsAll-cons b x s p ps r all (suc f) h = ground (
  arith,
  length-append x s,
  r f s (omega (arith, length-append {0} x s)),
  all f (omega (arith, length-append {0} x s)),
)

pub read-Reads : (x rest : Bytes) (p : Packet) → Reads x p → read (x ++ rest) ≡ ok (p, rest)
unfolding read
read-Reads x rest p r = r (length (x ++ rest) + 1) rest (omega (arith, length-append {0} x rest))

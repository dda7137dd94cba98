-- ===== src/Ber/Fuel.antt =====
-- The fuel that `read` and `decode_messages` hand out is enough for every input.
use nano_ldap.Prelude.{
  ℕ, zero, suc, ◌+◌, ◌≤◌, ◌<◌, ◌≡◌, ◌≢◌, [], ◌∷◌, arith, ok, err, length, length-append, inl, inr,
  >>=-eq-ok, ap, Result-cases,
}
use nano_ldap.Text.{Bytes}
use nano_ldap.Ber.Reader.{
  BerResult, Packet, Packets, stuck, read_full, read_byte, read_length, decode_packet, read_packet,
  read_children, read, decode_messages,
}
use nano_ldap.Ber.Length.{
  read_full_sound, read_full-ne-stuck, read_length-ne-stuck, read_length_bounds,
}

decode_packet-ne-stuck :
    (next : Bytes → BerResult Packets) (b : ℕ) (s : Bytes)
    → next s ≢ err stuck
    → decode_packet next b s ≢ err stuck
unfolding decode_packet
decode_packet-ne-stuck next b s h = ground arith

-- A packet that is read takes at least two bytes.
pub read_packet_takes :
    (f : ℕ) (s : Bytes) (p : Packet) (rest : Bytes)
    → read_packet f s ≡ ok (p, rest)
    → length rest + 2 ≤ length s
unfolding read_packet read_byte
read_packet_takes zero s p rest e = cc
read_packet_takes (suc f) [] p rest e = cc
read_packet_takes (suc f) (b ∷ s) p rest e =
    let ((n, s₂), q, e₂) = >>=-eq-ok (read_length s) _ e in
    let ((body, s₃), r, e₃) = >>=-eq-ok (read_full n s₂) _ e₂ in
    let (p', t, e₄) = >>=-eq-ok (decode_packet (read_children f) b body) _ e₃ in
    let split = ap length (read_full_sound n s₂ body s₃ r).0 in
    ground (arith, split, length-append body s₃, read_length_bounds s n s₂ q)

mutual
  unfolding read_packet read_byte

  read_packet-ne-stuck : (f : ℕ) (s : Bytes) → length s < f → read_packet f s ≢ err stuck
  read_packet-ne-stuck zero s h e = absurd (omega arith)
  read_packet-ne-stuck (suc f) [] h e = cc
  read_packet-ne-stuck (suc f) (b ∷ s) h e = elim (Result-cases (read_length s)) [
    | inr (x, q) ↦ ground (arith, read_length-ne-stuck s)
    | inl ((n, s₂), q) ↦ elim (Result-cases (read_full n s₂)) [
      | inr (x, r) ↦ ground (arith, read_full-ne-stuck n s₂)
      | inl ((body, s₃), r) ↦
          let split = ap length (read_full_sound n s₂ body s₃ r).0 in
          let bound : length body + 1 < f =
            omega (arith, split, length-append {0} body s₃, read_length_bounds s n s₂ q) in
          ground (
            arith,
            decode_packet-ne-stuck (read_children f) b body (read_children-ne-stuck f body bound),
          )
    ]
  ]

  read_children-ne-stuck : (f : ℕ) (s : Bytes) → length s + 1 < f → read_children f s ≢ err stuck
  read_children-ne-stuck zero s h e = absurd (omega arith)
  read_children-ne-stuck (suc f) [] h e = cc
  read_children-ne-stuck (suc f) (c ∷ s) h e = elim (Result-cases (read_packet f (c ∷ s))) [
    | inr (x, q) ↦ ground (arith, read_packet-ne-stuck f (c ∷ s) (omega arith))
    | inl ((p, rest), q) ↦
        ground (
          arith,
          read_children-ne-stuck f rest (omega (arith, read_packet_takes f (c ∷ s) p rest q)),
        )
  ]

-- Every input is read to a packet or to an error of the program: the recursion of `readPacket` and
-- the loop of `decodePacket` end.
pub read-ne-stuck : (s : Bytes) → read s ≢ err stuck
unfolding read
read-ne-stuck s = read_packet-ne-stuck (length s + 1) s (omega arith)

pub decode_messages-ne-stuck : (s : Bytes) → decode_messages s ≢ err stuck
unfolding decode_messages
decode_messages-ne-stuck s = read_children-ne-stuck (length s + 2) s (omega arith)

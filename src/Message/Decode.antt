-- ===== src/Message/Decode.antt =====
-- A result message that the server writes is read back as the message that it stands for.
use nano_ldap.Prelude.{
  ℕ, ◌+◌, ◌^◌, ◌≤◌, ◌<◌, ◌≡◌, false, [], ◌∷◌, ◌++◌, arith, ok, length, length-append, concat,
}
use nano_ldap.Text.{Bytes}
use nano_ldap.Ber.Reader.{Packet, Packets, nil, cons, read}
use nano_ldap.Ber.Writer.{
  append_length, ber_octet_string, ber_integer, ber_enumerated, ber_application, ber_message,
  integer_content,
}
use nano_ldap.Ber.Integer.{int-integer_content, length-integer_content}
use nano_ldap.Ber.RoundTrip.{Reads, ReadsAll, IsShort, ReadsAll-nil, ReadsAll-cons, read-Reads}
use nano_ldap.Ber.Shapes.{
  octet_packet, integer_packet, enumerated_packet, sequence_packet, application_packet,
  Reads-ber_octet_string, Reads-ber_integer, Reads-ber_enumerated, Reads-ber_sequence,
  Reads-ber_application,
}
use nano_ldap.Message.{read_message, result_packet}

length-append_length : (s : Bytes) → length (append_length s) ≤ length s + 3
unfolding append_length
length-append_length s = ground arith

length-ber_octet_string : (s : Bytes) → length (ber_octet_string s) ≤ length s + 4
unfolding ber_octet_string
length-ber_octet_string s = omega (arith, length-append_length s)

length-ber_integer : (v : ℕ) → length (ber_integer v) ≤ 13
unfolding ber_integer
length-ber_integer v =
    omega (arith, length-append_length (integer_content v), length-integer_content v)

length-ber_enumerated : (v : ℕ) → length (ber_enumerated v) ≤ 13
unfolding ber_enumerated ber_integer
length-ber_enumerated v =
    omega (arith, length-append_length (integer_content v), length-integer_content v)

length-ber_application : (t : ℕ) (s : Bytes) → length (ber_application t s) ≤ length s + 4
unfolding ber_application
length-ber_application t s = omega (arith, length-append_length s)

abbrev result_body : ℕ → Bytes → Bytes → Bytes
result_body code matched diagnostic =
    concat (ber_enumerated code ∷ ber_octet_string matched ∷ ber_octet_string diagnostic ∷ [])

abbrev pub result_children : ℕ → Bytes → Bytes → Packets
result_children code matched diagnostic =
    cons (enumerated_packet code) (cons (octet_packet matched) (cons (octet_packet diagnostic) nil))

length-result_body :
    (code : ℕ) (m d : Bytes) → length (result_body code m d) ≤ length m + length d + 21
length-result_body code m d = omega (
  arith,
  length-append {0} (ber_enumerated code) (ber_octet_string m ++ (ber_octet_string d ++ [])),
  length-append {0} (ber_octet_string m) (ber_octet_string d ++ []),
  length-append {0} (ber_octet_string d) [],
  length-ber_enumerated code,
  length-ber_octet_string m,
  length-ber_octet_string d,
)

ReadsAll-octet :
    (s t : Bytes) (ps : Packets)
    → IsShort s
    → ReadsAll t ps
    → ReadsAll (ber_octet_string s ++ t) (cons (octet_packet s) ps)
unfolding ber_octet_string
ReadsAll-octet s t ps h r =
    ReadsAll-cons 0x04 (append_length s) t (octet_packet s) ps (Reads-ber_octet_string s h) r

ReadsAll-enumerated :
    (v : ℕ) (t : Bytes) (ps : Packets)
    → ReadsAll t ps
    → ReadsAll (ber_enumerated v ++ t) (cons (enumerated_packet v) ps)
unfolding ber_enumerated ber_integer
ReadsAll-enumerated v t ps r =
    ReadsAll-cons 0x0a (append_length (integer_content v)) t (enumerated_packet v) ps
      (Reads-ber_enumerated v) r

ReadsAll-integer :
    (v : ℕ) (t : Bytes) (ps : Packets)
    → ReadsAll t ps
    → ReadsAll (ber_integer v ++ t) (cons (integer_packet v) ps)
unfolding ber_integer
ReadsAll-integer v t ps r =
    ReadsAll-cons 0x02 (append_length (integer_content v)) t (integer_packet v) ps
      (Reads-ber_integer v) r

-- The two texts of a result leave room for the frames round them.
abbrev pub RoomFor : Bytes → Bytes → Type 0
RoomFor matched diagnostic = length matched + length diagnostic < 65000

abbrev pub result_op : ℕ → ℕ → Bytes → Bytes → Packet
result_op app_tag code matched diagnostic =
    application_packet app_tag (result_body code matched diagnostic)
      (result_children code matched diagnostic)

Reads-result_packet :
    (t code : ℕ) (m d : Bytes)
    → t < 31
    → RoomFor m d
    → Reads (result_packet t code m d) (result_op t code m d)
unfolding result_packet
Reads-result_packet t code m d h room =
    Reads-ber_application t (result_body code m d) (result_children code m d) h
      (omega (arith, length-result_body code m d))
      (ReadsAll-enumerated code _ _
        (ReadsAll-octet m _ _ (omega arith) (ReadsAll-octet d [] nil (omega arith) ReadsAll-nil)))

length-result_packet :
    (t code : ℕ) (m d : Bytes) → length (result_packet t code m d) ≤ length m + length d + 25
unfolding result_packet
length-result_packet t code m d =
    omega (arith, length-ber_application t (result_body code m d), length-result_body code m d)

abbrev pub message_packet : ℕ → Bytes → Packet → Packet
message_packet id op p =
    sequence_packet (concat (ber_integer id ∷ op ∷ [])) (cons (integer_packet id) (cons p nil))

-- An operation that begins with a byte is read from within its message.
Reads-ber_message :
    (id b : ℕ) (x : Bytes) (p : Packet)
    → length (b ∷ x) < 65500
    → Reads (b ∷ x) p
    → Reads (ber_message id (b ∷ x)) (message_packet id (b ∷ x) p)
Reads-ber_message id b x p short r =
    unfold ber_message in
    Reads-ber_sequence (ber_integer id ∷ (b ∷ x) ∷ []) (cons (integer_packet id) (cons p nil))
      (omega (
        arith,
        length-append {0} (ber_integer id) ((b ∷ x) ++ []),
        length-append {0} x [],
        length-ber_integer id,
      ))
      (ReadsAll-integer id _ _ (ReadsAll-cons b x [] p nil r ReadsAll-nil))

read_message_step :
    (s rest : Bytes) (id : ℕ) (body : Bytes) (p : Packet)
    → id < 2 ^ 64
    → read s ≡ ok (sequence_packet body (cons (integer_packet id) (cons p nil)), rest)
    → read_message s
      ≡ ok (
        record {
          id = id;
          op = p;
          raw = sequence_packet body (cons (integer_packet id) (cons p nil));
        },
        rest,
      )
unfolding read_message
read_message_step s rest id body p h e = rw (e, int-integer_content id 0 2 false nil h)

pub Reads-result_message :
    (id t code : ℕ) (m d : Bytes)
    → t < 31
    → RoomFor m d
    → Reads
        (ber_message id (result_packet t code m d))
        (message_packet id (result_packet t code m d) (result_op t code m d))
unfolding result_packet ber_application
Reads-result_message id t code m d ht room =
    Reads-ber_message id _ (append_length (result_body code m d)) (result_op t code m d)
      (omega (arith, length-result_packet t code m d)) (Reads-result_packet t code m d ht room)

-- A result message that the server writes, with a 64-bit id, a tag below 31 and texts that leave
-- room in 65536 bytes, is read by `readMessage`, in front of any bytes, as a message with the same
-- id whose operation has the given tag, code, matched DN and diagnostic.
pub read_message-result :
    (id t code : ℕ) (m d rest : Bytes)
    → id < 2 ^ 64
    → t < 31
    → RoomFor m d
    → read_message (ber_message id (result_packet t code m d) ++ rest)
      ≡ ok (
        record {
          id = id;
          op = result_op t code m d;
          raw = message_packet id (result_packet t code m d) (result_op t code m d);
        },
        rest,
      )
read_message-result id t code m d rest h ht room =
    read_message_step _ rest id _ (result_op t code m d) h
      (read-Reads _ rest _ (Reads-result_message id t code m d ht room))

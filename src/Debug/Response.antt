-- ===== src/Debug/Response.antt =====
-- The trace of the results that the server answers with.
use nano_ldap.Prelude.{
  ℕ, ◌+◌, ◌<◌, ◌^◌, Bool, true, false, ◌≡◌, refl, [], ◌∷◌, ◌++◌, arith, length, some, ok, err,
  if◌then◌else◌, ap, ◌∙◌, append-nil, concat,
}
use mathlib.Core.Path.{subst}
use nano_ldap.Text.{Bytes, codes, is_empty}
use nano_ldap.Text.Decimal.{format_int}
use nano_ldap.Ber.Reader.{BerError, Packet, nil, cons, tag, decode_messages}
use nano_ldap.Ber.Writer.{ber_message, ber_sequence, ber_integer, append_length}
use nano_ldap.Ber.Integer.{int-integer_content}
use nano_ldap.Ber.RoundTrip.{Reads, ReadsAll, ReadsAll-nil, ReadsAll-cons}
use nano_ldap.Message.{Message, result_packet}
use nano_ldap.Message.Decode.{RoomFor, result_op, message_packet, Reads-result_message}
use nano_ldap.Connection.{result_message}
use nano_ldap.Debug.{result_code_name}
use nano_ldap.Debug.Trace.{
  format_debug_packet, format_debug_message, format_debug_messages, format_result_packet,
  format_root, log_line, log_response, response_tail,
}

ReadsAll-single : (b : ℕ) (x : Bytes) (p : Packet) → Reads (b ∷ x) p → ReadsAll (b ∷ x) (cons p nil)
ReadsAll-single b x p r =
    subst (λ s. ReadsAll s (cons p nil)) (append-nil (b ∷ x))
      (ReadsAll-cons b x [] p nil r ReadsAll-nil)

-- A message alone in a payload.
ReadsAll-message :
    (id : ℕ) (op : Bytes) (p : Packet)
    → Reads (ber_message id op) p
    → ReadsAll (ber_message id op) (cons p nil)
unfolding ber_message ber_sequence
ReadsAll-message id op p r =
    ReadsAll-single 0x30 (append_length (concat (ber_integer id ∷ op ∷ []))) p r

decode_messages-result :
    (id t code : ℕ) (d : Bytes)
    → t < 31
    → RoomFor [] d
    → decode_messages (result_message id t code d)
      ≡ ok (cons (message_packet id (result_packet t code [] d) (result_op t code [] d)) nil)
unfolding decode_messages result_message
decode_messages-result id t code d h room =
    ReadsAll-message id (result_packet t code [] d) _ (Reads-result_message id t code [] d h room)
      (length (ber_message id (result_packet t code [] d)) + 2) (omega arith)

-- The operations that answer a bind and a search.
abbrev pub answer_tag : Bool → ℕ
answer_tag search = if search then 5 else 1

abbrev pub answer_name : Bool → Bytes
answer_name search = if search then codes "SearchResultDone" else codes "BindResponse"

answer_tag_lt : (search : Bool) → answer_tag search < 31
answer_tag_lt false = omega arith
answer_tag_lt true = omega arith

result_message_nonempty :
    (id t code : ℕ) (d : Bytes) → is_empty (result_message id t code d) ≡ false
unfolding result_message ber_message ber_sequence
result_message_nonempty id t code d = refl

module _ (quote : Bytes → Bytes) where
  -- The text of a result.
  abbrev pub result_text : Bytes → ℕ → Bytes → Bytes
  result_text name code d =
      name
      ++ (codes "{result="
          ++ (result_code_name code
              ++ (codes ", matchedDN="
                  ++ (quote [] ++ (codes ", diagnostic=" ++ (quote d ++ codes "}"))))))

  format_debug_packet-result_op :
      (search : Bool) (code : ℕ) (d : Bytes)
      → code < 2 ^ 64
      → format_debug_packet quote (result_op (answer_tag search) code [] d)
        ≡ result_text (answer_name search) code d
  unfolding format_debug_packet format_result_packet
  format_debug_packet-result_op false code d h =
      ap (λ o. result_text (codes "BindResponse") (elim o [ ok v ↦ v | err e ↦ 0 ]) d)
        (int-integer_content code 0 10 false nil h)
  format_debug_packet-result_op true code d h =
      ap (λ o. result_text (codes "SearchResultDone") (elim o [ ok v ↦ v | err e ↦ 0 ]) d)
        (int-integer_content code 0 10 false nil h)

  -- The message round it.
  format_debug_message-message_packet :
      (id : ℕ) (op : Bytes) (p : Packet)
      → id < 2 ^ 64
      → format_debug_message quote (message_packet id op p)
        ≡ codes "LDAPMessage{id="
          ++ (format_int id ++ (codes ", op=" ++ (format_debug_packet quote p ++ codes "}")))
  unfolding format_debug_message
  format_debug_message-message_packet id op p h =
      rw (int-integer_content id 0 2 false nil h, format_root) refl

  -- The line that the trace has for a result.
  abbrev pub result_line : Bytes → Message → ℕ → Bytes → Bytes
  result_line remote msg id text =
      log_line quote (codes "response") remote msg.id (tag msg.op) (
        codes "payload=LDAPMessage{id="
        ++ (format_int id ++ (codes ", op=" ++ (text ++ codes "}"))))

  -- For a result that answers a bind or a search, with a 64-bit id and code and a diagnostic that
  -- leaves room in 65536 bytes, the trace has a line, with the id, the name of the code and the
  -- quoted diagnostic; it reports no decode error.
  pub log_response-result_message :
      (describe : BerError → Bytes) (remote : Bytes) (msg : Message) (search : Bool) (id code : ℕ)
      (d : Bytes)
      → id < 2 ^ 64
      → code < 2 ^ 64
      → RoomFor [] d
      → log_response quote describe remote msg (result_message id (answer_tag search) code d)
        ≡ some (result_line remote msg id (result_text (answer_name search) code d))
  unfolding log_response format_debug_messages
  log_response-result_message describe remote msg search id code d h h' room =
      rw (result_message_nonempty id (answer_tag search) code d) (
        ap some (
          ap
            (λ r.
              log_line quote (codes "response") remote msg.id (tag msg.op)
                (response_tail quote describe (result_message id (answer_tag search) code d) r))
            (decode_messages-result id (answer_tag search) code d (answer_tag_lt search) room)
          ∙ ap
              (λ text.
                log_line quote (codes "response") remote msg.id (tag msg.op)
                  (codes "payload=" ++ text))
              (format_debug_message-message_packet id _ (result_op (answer_tag search) code [] d) h
                ∙ ap
                    (λ text.
                      codes "LDAPMessage{id="
                      ++ (format_int id ++ (codes ", op=" ++ (text ++ codes "}"))))
                    (format_debug_packet-result_op search code d h'))))

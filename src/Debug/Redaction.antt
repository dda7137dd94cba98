-- ===== src/Debug/Redaction.antt =====
-- The password of a simple bind is not in the debug trace.
use mathlib.Core.Path.{subst}
use nano_ldap.Prelude.{
  ℕ, Bool, true, false, ◌&&◌, ◌≡◌, refl, [], arith, Bool-cases, inl, inr, ◌==◌, Result-cases, IfOk,
  ok, if◌then◌else◌, ap, ◌∙◌, sym, ◌++◌,
}
use nano_ldap.Text.{Bytes, codes}
use nano_ldap.Text.Decimal.{format_int}
use nano_ldap.Ber.Reader.{
  Packet, Packets, packet, nil, cons, class, tag, children, int, read, class_universal,
  class_application, class_context,
}
use nano_ldap.Message.{Message, message_of, read_message}
use nano_ldap.Debug.Trace.{
  format_bind_request, format_auth_choice, format_debug_packet, format_debug_message, format_root,
  log_request,
}

abbrev is_bind : Packet → Bool
is_bind p = class p == class_application && tag p == 0

abbrev pub erase_auth : Packet → Packet
erase_auth (packet k t c s ps) =
    if k == class_context && t == 0 then packet k t c [] nil else packet k t c s ps

abbrev pub erase_children : Packets → Packets
erase_children (cons version (cons name (cons auth rest))) =
    cons version (cons name (cons (erase_auth auth) nil))
erase_children ps = nil

-- A bind request without the password of a simple bind; any other operation as it is.
abbrev pub erase : Packet → Packet
erase (packet k t c s ps) =
    if k == class_application && t == 0
    then packet k t c [] (erase_children ps)
    else packet k t c s ps

abbrev pub erase_root : Packet → Packet
erase_root (packet k t c s (cons first (cons op rest))) =
    if is_bind op
    then packet k t c [] (cons first (cons (erase op) nil))
    else packet k t c s (cons first (cons op rest))
erase_root p = p

-- A message less the password, in the operation and in the bytes that hold it.
abbrev pub without_password : Message → Message
without_password m = record { id = m.id; op = erase m.op; raw = erase_root m.raw }

erase_bind :
    (k t : ℕ) (c : Bool) (s : Bytes) (ps : Packets)
    → (k == class_application && t == 0) ≡ true
    → erase (packet k t c s ps) ≡ packet k t c [] (erase_children ps)
erase_bind k t c s ps e = rw e refl

erase_other :
    (k t : ℕ) (c : Bool) (s : Bytes) (ps : Packets)
    → (k == class_application && t == 0) ≡ false
    → erase (packet k t c s ps) ≡ packet k t c s ps
erase_other k t c s ps e = rw e refl

erase_root_bind :
    (k t : ℕ) (c : Bool) (s : Bytes) (first op : Packet) (rest : Packets)
    → is_bind op ≡ true
    → erase_root (packet k t c s (cons first (cons op rest)))
      ≡ packet k t c [] (cons first (cons (erase op) nil))
erase_root_bind k t c s first op rest e = rw e refl

erase_root_other :
    (k t : ℕ) (c : Bool) (s : Bytes) (first op : Packet) (rest : Packets)
    → is_bind op ≡ false
    → erase_root (packet k t c s (cons first (cons op rest)))
      ≡ packet k t c s (cons first (cons op rest))
erase_root_other k t c s first op rest e = rw e refl

module _ (quote : Bytes → Bytes) where
  format_auth_choice-erase_auth :
      (p : Packet) → format_auth_choice quote (erase_auth p) ≡ format_auth_choice quote p
  unfolding format_auth_choice
  format_auth_choice-erase_auth (packet k t c s ps) = ground arith

  format_bind_request-erase_children :
      (ps : Packets) → format_bind_request quote (erase_children ps) ≡ format_bind_request quote ps
  unfolding format_bind_request
  format_bind_request-erase_children nil = refl
  format_bind_request-erase_children (cons a nil) = refl
  format_bind_request-erase_children (cons a (cons b nil)) = refl
  format_bind_request-erase_children (cons a (cons b (cons auth rest))) =
      rw (format_auth_choice-erase_auth auth) refl

  tag-erase : (p : Packet) → tag (erase p) ≡ tag p
  tag-erase (packet k t c s ps) = ground arith

  format_debug_packet_bind :
      (p : Packet)
      → is_bind p ≡ true
      → format_debug_packet quote p ≡ format_bind_request quote (children p)
  unfolding format_debug_packet
  format_debug_packet_bind p e = rw e refl

  format_debug_packet-erase :
      (p : Packet) → format_debug_packet quote (erase p) ≡ format_debug_packet quote p
  format_debug_packet-erase (packet k t c s ps) =
      elim (Bool-cases (k == class_application && t == 0)) [
        | inr e ↦ ap (format_debug_packet quote) (erase_other k t c s ps e)
        | inl e ↦
            ap (format_debug_packet quote) (erase_bind k t c s ps e)
            ∙ format_debug_packet_bind (packet k t c [] (erase_children ps)) e
            ∙ format_bind_request-erase_children ps
            ∙ sym (format_debug_packet_bind (packet k t c s ps) e)
      ]

  abbrev message_text : ℕ → Bytes → Bytes
  message_text id text =
      codes "LDAPMessage{id=" ++ (format_int id ++ (codes ", op=" ++ (text ++ codes "}")))

  format_root_message :
      (p first op : Packet) (rest : Packets) (id : ℕ)
      → int first ≡ ok id
      → format_root quote p (cons first (cons op rest))
        ≡ message_text id (format_debug_packet quote op)
  format_root_message p first op rest id e = rw (e, format_root) refl

  format_debug_message_root :
      (k t id : ℕ) (c : Bool) (s : Bytes) (first op : Packet) (rest : Packets)
      → (k == class_universal && t == 16) ≡ true
      → int first ≡ ok id
      → format_debug_message quote (packet k t c s (cons first (cons op rest)))
        ≡ message_text id (format_debug_packet quote op)
  unfolding format_debug_message
  format_debug_message_root k t id c s first op rest h e =
      rw h (format_root_message (packet k t c s (cons first (cons op rest))) first op rest id e)

  -- What `readMessage` makes of a sequence of an id and an operation.
  format_debug_message-erase_root :
      (k t id : ℕ) (c : Bool) (s : Bytes) (first op : Packet) (rest : Packets)
      → (k == class_universal && t == 16) ≡ true
      → int first ≡ ok id
      → format_debug_message quote (erase_root (packet k t c s (cons first (cons op rest))))
        ≡ format_debug_message quote (packet k t c s (cons first (cons op rest)))
  format_debug_message-erase_root k t id c s first op rest h e = elim (Bool-cases (is_bind op)) [
    | inr b ↦ ap (format_debug_message quote) (erase_root_other k t c s first op rest b)
    | inl b ↦
        ap (format_debug_message quote) (erase_root_bind k t c s first op rest b)
        ∙ format_debug_message_root k t id c [] first (erase op) nil h e
        ∙ ap (message_text id) (format_debug_packet-erase op)
        ∙ sym (format_debug_message_root k t id c s first op rest h e)
  ]

  abbrev Same : Message × Bytes → Type 0
  Same (m, rest) = format_debug_message quote (erase_root m.raw) ≡ format_debug_message quote m.raw

  message_of-Same :
      (k t : ℕ) (c : Bool) (s : Bytes) (ps : Packets) (rest : Bytes)
      → (k == class_universal && t == 16) ≡ true
      → IfOk Same (message_of (packet k t c s ps) ps rest)
  unfolding message_of
  message_of-Same k t c s nil rest h = tt
  message_of-Same k t c s (cons first nil) rest h = tt
  message_of-Same k t c s (cons first (cons op others)) rest h = elim (Result-cases (int first)) [
    | inr (x, e) ↦ rw e tt
    | inl (id, e) ↦ rw e (format_debug_message-erase_root k t id c s first op others h e)
  ]

  -- The root is a sequence whenever a message is read.
  read_message-Same : (s : Bytes) → IfOk Same (read_message s)
  unfolding read_message
  read_message-Same s = elim (Result-cases (read s)) [
    | inr (x, e) ↦ rw e tt
    | inl ((packet k t c body ps, rest), e) ↦ elim (Bool-cases (k == class_universal && t == 16)) [
      | inr h ↦ rw (e, h) tt
      | inl h ↦ rw (e, h) (message_of-Same k t c body ps rest h)
    ]
  ]

  -- The line that the trace has for a message that `readMessage` returned is the same as for that
  -- message without the password of a simple bind, and without the bytes of the request that hold
  -- it.
  pub log_request-without_password :
      (remote s rest : Bytes) (m : Message)
      → read_message s ≡ ok (m, rest)
      → log_request quote remote (without_password m) ≡ log_request quote remote m
  unfolding log_request
  log_request-without_password remote s rest m e =
      rw (tag-erase m.op, subst (IfOk Same) e (read_message-Same s)) refl

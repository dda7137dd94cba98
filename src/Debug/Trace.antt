-- ===== src/Debug/Trace.antt =====
-- The operations in the debug trace: `formatDebugPacket` and what it calls, of
-- internal/ldapserver/debug.go, and the lines of `logRequest` and `logResponse`, of
-- internal/ldapserver/server.go.
use nano_ldap.Prelude.{
  ℕ, ◌&&◌, List, [], ◌∷◌, ◌++◌, map, length, ◌==◌, if◌then◌else◌, Option, none, some, Result, ok,
  err,
}
use nano_ldap.Text.{Bytes, codes, is_empty}
use nano_ldap.Text.Decimal.{format_int}
use nano_ldap.Ber.Reader.{
  BerError, Packet, Packets, packet, nil, cons, class, tag, content, children, int, boolean,
  to_list, decode_messages, class_universal, class_application, class_context,
}
use nano_ldap.Message.{Message}
use nano_ldap.Debug.{
  join_by, commas, format_bool, int_or_zero, ldap_op_name, scope_name, result_code_name,
  format_generic_packet,
}

module _ (quote : Bytes → Bytes) where
  -- `case pkt.tag == 3 && len(pkt.children) >= 2`, and the default.
  unfoldable pub format_equality : Packet → Packets → Bytes
  unfolding format_generic_packet
  format_equality p (cons attr (cons value rest)) =
      codes "eq(" ++ (content attr ++ (codes "=" ++ (quote (content value) ++ codes ")")))
  format_equality p _ = format_generic_packet quote p

  -- The switch of `formatFilterPacket`, with the texts of the children.
  unfoldable pub format_choice : Packet → List Bytes → Bytes
  unfolding format_equality format_generic_packet
  format_choice p texts =
      if class p == class_context && tag p == 0
      then codes "and(" ++ (commas texts ++ codes ")")
      else if class p == class_context && tag p == 1
      then codes "or(" ++ (commas texts ++ codes ")")
      else if class p == class_context && tag p == 3
      then format_equality p (children p)
      else if class p == class_context && tag p == 7
      then codes "present(" ++ (content p ++ codes ")")
      else format_generic_packet quote p

  unfoldable mutual
    pub format_filter_packet : Packet → Bytes
    format_filter_packet (packet k t c s ps) =
        let texts = format_filter_packets ps in format_choice (packet k t c s ps) texts

    pub format_filter_packets : Packets → List Bytes
    format_filter_packets nil = []
    format_filter_packets (cons p ps) =
        let text = format_filter_packet p in let texts = format_filter_packets ps in text ∷ texts

  unfoldable pub format_auth_choice : Packet → Bytes
  unfolding format_generic_packet
  format_auth_choice p =
      if class p == class_context && tag p == 0
      then codes "simple(\"<redacted>\")"
      else format_generic_packet quote p

  -- `formatBindRequest`, of the children.
  unfoldable pub format_bind_request : Packets → Bytes
  unfolding format_auth_choice format_int
  format_bind_request (cons version (cons name (cons auth rest))) =
      codes "BindRequest{version="
      ++ (format_int (int_or_zero version)
          ++ (codes ", dn="
              ++ (quote (content name)
                  ++ (codes ", authentication=" ++ (format_auth_choice auth ++ codes "}")))))
  format_bind_request _ = codes "BindRequest{invalid=true}"

  abbrev pub quoted : Packets → Bytes
  quoted ps = commas (map (λ p. quote (content p)) (to_list ps))

  -- `formatSearchRequest`, of the children.
  unfoldable pub format_search_request : Packets → Bytes
  unfolding format_filter_packet scope_name format_int
  format_search_request
        (cons base (
          cons scope (
            cons deref
              (cons size (cons time (cons types (cons filter (cons attributes rest)))))))) =
      codes "SearchRequest{baseDN="
      ++ (quote (content base)
          ++ (codes ", scope="
              ++ (scope_name (int_or_zero scope)
                  ++ (codes ", derefAliases="
                      ++ (format_int (int_or_zero deref)
                          ++ (codes ", sizeLimit="
                              ++ (format_int (int_or_zero size)
                                  ++ (codes ", timeLimit="
                                      ++ (format_int (int_or_zero time)
                                          ++ (codes ", typesOnly="
                                              ++ (format_bool (boolean types)
                                                  ++ (codes ", filter="
                                                      ++ (format_filter_packet filter
                                                          ++ (codes ", attributes=["
                                                            ++ (quoted (children attributes)
                                                            ++ codes "]}")))))))))))))))
  format_search_request _ = codes "SearchRequest{invalid=true}"

  -- One attribute of an entry; `none` where the loop goes on without it.
  abbrev pub format_attribute : Packets → Option Bytes
  format_attribute (cons name (cons values rest)) =
      some (content name ++ (codes "=[" ++ (quoted (children values) ++ codes "]")))
  format_attribute _ = none

  unfoldable pub format_attributes : List Packet → List Bytes
  format_attributes [] = []
  format_attributes (attr ∷ attrs) =
      let rest = format_attributes attrs in
      elim (format_attribute (children attr)) [ none ↦ rest | some text ↦ text ∷ rest ]

  -- `formatSearchEntry`, of the children.
  unfoldable pub format_search_entry : Packets → Bytes
  unfolding format_attributes
  format_search_entry (cons name (cons attributes rest)) =
      codes "SearchResultEntry{dn="
      ++ (quote (content name)
          ++ (codes ", attributes=["
              ++ (commas (format_attributes (to_list (children attributes))) ++ codes "]}")))
  format_search_entry _ = codes "SearchResultEntry{invalid=true}"

  -- `formatResultPacket`, of the children.
  unfoldable pub format_result_packet : Bytes → Packets → Bytes
  unfolding result_code_name
  format_result_packet name (cons code (cons matched (cons diagnostic rest))) =
      name
      ++ (codes "{result="
          ++ (result_code_name (int_or_zero code)
              ++ (codes ", matchedDN="
                  ++ (quote (content matched)
                      ++ (codes ", diagnostic=" ++ (quote (content diagnostic) ++ codes "}"))))))
  format_result_packet name _ = name ++ codes "{invalid=true}"

  unfoldable pub format_debug_packet : Packet → Bytes
  unfolding format_bind_request format_result_packet format_search_request format_search_entry
      format_generic_packet
  format_debug_packet p =
      if class p == class_application && tag p == 0
      then format_bind_request (children p)
      else if class p == class_application && tag p == 1
      then format_result_packet (codes "BindResponse") (children p)
      else if class p == class_application && tag p == 2
      then codes "UnbindRequest{}"
      else if class p == class_application && tag p == 3
      then format_search_request (children p)
      else if class p == class_application && tag p == 4
      then format_search_entry (children p)
      else if class p == class_application && tag p == 5
      then format_result_packet (codes "SearchResultDone") (children p)
      else format_generic_packet quote p

  -- A sequence of an id and an operation, or any other packet.
  abbrev pub format_root : Packet → Packets → Bytes
  format_root p (cons first (cons op rest)) = elim (int first) [
    | ok id ↦
        codes "LDAPMessage{id="
        ++ (format_int id ++ (codes ", op=" ++ (format_debug_packet op ++ codes "}")))
    | err e ↦ format_debug_packet p
  ]
  format_root p _ = format_debug_packet p

  unfoldable pub format_debug_message : Packet → Bytes
  unfolding format_debug_packet format_int
  format_debug_message p =
      if class p == class_universal && tag p == 16
      then format_root p (children p)
      else format_debug_packet p

  unfoldable pub format_debug_messages : Packets → Bytes
  format_debug_messages ps = join_by (codes "; ") (map format_debug_message (to_list ps))

  -- What the lines have in common.
  abbrev pub log_line : Bytes → Bytes → ℕ → ℕ → Bytes → Bytes
  log_line kind remote id tag rest =
      kind
      ++ (codes " remote="
          ++ (remote
              ++ (codes " message_id="
                  ++ (format_int id
                      ++ (codes " op=" ++ (ldap_op_name tag ++ (codes " " ++ rest)))))))

  -- `logRequest`, with the trace on.
  unfoldable pub log_request : Bytes → Message → Bytes
  unfolding format_debug_message ldap_op_name
  log_request remote msg =
      log_line (codes "request") remote msg.id (tag msg.op)
        (codes "payload=" ++ format_debug_message msg.raw)

  -- The tail of a line of `logResponse`; `describe` is the text of an error.
  abbrev pub response_tail : (BerError → Bytes) → Bytes → Result BerError Packets → Bytes
  response_tail describe response (ok messages) = codes "payload=" ++ format_debug_messages messages
  response_tail describe response (err e) =
      codes "decode_error="
      ++ (quote (describe e) ++ (codes " bytes=" ++ format_int (length response)))

  -- `logResponse`, with the trace on; an empty response has no line.
  unfoldable pub log_response : (BerError → Bytes) → Bytes → Message → Bytes → Option Bytes
  unfolding format_debug_messages ldap_op_name
  log_response describe remote msg response =
      if is_empty response
      then none
      else some (
          log_line (codes "response") remote msg.id (tag msg.op)
            (response_tail describe response (decode_messages response)))

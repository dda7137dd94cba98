-- ===== src/Debug.antt =====
-- The debug trace: the formatting functions of internal/ldapserver/debug.go, and `logRequest` and
-- `logResponse` of internal/ldapserver/server.go. `quote` is `strconv.Quote`, whose escapes follow
-- the tables of Unicode; a line is what `Printf` gets to write, without the logger's prefix.
pub mod Trace
pub mod Redaction
pub mod Response
use nano_ldap.Prelude.{
  ℕ, Bool, true, false, not, ◌&&◌, ◌||◌, List, [], ◌∷◌, ◌++◌, map, concat, length, leb, ltb, ◌==◌,
  if◌then◌else◌, Option, none, some, Result, ok, err,
}
use nano_ldap.Text.{Bytes, codes, is_empty}
use nano_ldap.Text.Decimal.{decimal, format_int}
use nano_ldap.Ber.Reader.{
  BerError, Packet, Packets, packet, nil, cons, class, tag, content, children, int, boolean,
  to_list, decode_messages, class_universal, class_application, class_context,
}
use nano_ldap.Dn.{scope_base_object, scope_single, scope_subtree}
use nano_ldap.ResultCode
use nano_ldap.Message.{Message}

-- `strings.Join` with the separator `", "`, and with `"; "`.
abbrev pub join_by : Bytes → List Bytes → Bytes
join_by sep [] = []
join_by sep (x ∷ []) = x
join_by sep (x ∷ y ∷ xs) = x ++ (sep ++ join_by sep (y ∷ xs))

abbrev pub commas : List Bytes → Bytes
commas = join_by (codes ", ")

-- `%t`.
abbrev pub format_bool : Bool → Bytes
format_bool b = if b then codes "true" else codes "false"

-- `value, _ := pkt.int()`.
abbrev pub int_or_zero : Packet → ℕ
int_or_zero p = elim (int p) [ ok v ↦ v | err e ↦ 0 ]

-- A number in the brackets that follow a name.
abbrev pub numbered : Bytes → ℕ → Bytes → Bytes
numbered before n after = before ++ (format_int n ++ after)

unfoldable pub ldap_op_name : ℕ → Bytes
unfolding format_int
ldap_op_name tag =
    if tag == 0
    then codes "BindRequest"
    else if tag == 1
    then codes "BindResponse"
    else if tag == 2
    then codes "UnbindRequest"
    else if tag == 3
    then codes "SearchRequest"
    else if tag == 4
    then codes "SearchResultEntry"
    else if tag == 5
    then codes "SearchResultDone"
    else if tag == 7
    then codes "ModifyResponse"
    else if tag == 9
    then codes "AddResponse"
    else if tag == 11
    then codes "DelResponse"
    else if tag == 13
    then codes "ModifyDNResponse"
    else numbered (codes "APPLICATION[") tag (codes "]")

unfoldable pub scope_name : ℕ → Bytes
unfolding format_int
scope_name scope =
    if scope == scope_base_object
    then codes "baseObject"
    else if scope == scope_single
    then codes "singleLevel"
    else if scope == scope_subtree
    then codes "subtree"
    else numbered (codes "scope(") scope (codes ")")

unfoldable pub result_code_name : ℕ → Bytes
unfolding format_int
result_code_name code =
    if code == ResultCode.success
    then codes "success"
    else if code == ResultCode.protocol_error
    then codes "protocolError"
    else if code == ResultCode.invalid_dn_syntax
    then codes "invalidDNSyntax"
    else if code == ResultCode.admin_limit_exceeded
    then codes "adminLimitExceeded"
    else if code == ResultCode.auth_method_not_supported
    then codes "authMethodNotSupported"
    else if code == ResultCode.invalid_credentials
    then codes "invalidCredentials"
    else if code == ResultCode.insufficient_access_rights
    then codes "insufficientAccessRights"
    else if code == ResultCode.busy
    then codes "busy"
    else if code == ResultCode.unwilling_to_perform
    then codes "unwillingToPerform"
    else numbered (codes "code(") code (codes ")")

abbrev pub class_and_tag : ℕ → ℕ → Bytes
class_and_tag k t = codes "CLASS[" ++ (format_int k ++ (codes ":" ++ (format_int t ++ codes "]")))

unfoldable pub universal_name : ℕ → Bytes
unfolding format_int
universal_name t =
    if t == 1
    then codes "BOOLEAN"
    else if t == 2
    then codes "INTEGER"
    else if t == 4
    then codes "OCTET_STRING"
    else if t == 10
    then codes "ENUMERATED"
    else if t == 16
    then codes "SEQUENCE"
    else if t == 17
    then codes "SET"
    else class_and_tag class_universal t

-- `packetName`, of the class and the tag.
unfoldable pub packet_name : ℕ → ℕ → Bytes
unfolding universal_name ldap_op_name format_int
packet_name k t =
    if k == class_universal
    then universal_name t
    else if k == class_application
    then ldap_op_name t
    else if k == class_context
    then numbered (codes "CONTEXT[") t (codes "]")
    else class_and_tag k t

module _ (quote : Bytes → Bytes) where
  -- The switch of `formatGenericPacket`, where there are no children.
  unfoldable pub format_primitive : Packet → Bytes
  unfolding packet_name
  format_primitive p =
      let name = packet_name (class p) (tag p) in
      let bytes =
        if is_empty (content p)
        then name ++ codes "()"
        else name ++ (codes "(" ++ (quote (content p) ++ codes ")")) in
      if class p == class_universal && (tag p == 2 || tag p == 10)
      then elim (int p) [
        | ok value ↦ name ++ numbered (codes "(") value (codes ")")
        | err e ↦ name ++ codes "()"
      ]
      else if class p == class_universal && tag p == 1
      then name ++ (codes "(" ++ (format_bool (boolean p) ++ codes ")"))
      else bytes

  abbrev pub format_constructed : Packet → List Bytes → Bytes
  format_constructed p [] = format_primitive p
  format_constructed p (x ∷ xs) =
      packet_name (class p) (tag p) ++ (codes "{" ++ (commas (x ∷ xs) ++ codes "}"))

  unfoldable mutual
    pub format_generic_packet : Packet → Bytes
    format_generic_packet (packet k t c s ps) =
        let texts = format_generic_packets ps in format_constructed (packet k t c s ps) texts

    -- The loop over the children.
    pub format_generic_packets : Packets → List Bytes
    format_generic_packets nil = []
    format_generic_packets (cons p ps) =
        let text = format_generic_packet p in let texts = format_generic_packets ps in text ∷ texts

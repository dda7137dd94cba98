-- ===== src/Message.antt =====
-- LDAP messages: `readMessage`, `resultPacket`, `searchEntryPacket` and `parseSearchRequest` of
-- internal/ldapserver/server.go.
pub mod Decode
use nano_ldap.Prelude.{
  ℕ, Bool, true, false, not, ◌&&◌, ◌||◌, List, [], ◌∷◌, ◌++◌, map, ◌==◌, if◌then◌else◌, Option,
  none, some, Result, ok, err, ◌>>=◌, concat,
}
use nano_ldap.Text.{Bytes}
use nano_ldap.Ber.Reader.{
  BerError, Packet, Packets, packet, nil, cons, class, tag, content, children, to_list, int, read,
  class_universal,
}
use nano_ldap.Ber.Writer.{
  ber_sequence, ber_set, ber_octet_string, ber_enumerated, ber_application, ber_message,
}
use nano_ldap.Filter.{Filter, Attributes, parse_filter}
use nano_ldap.Dn.{scope_base_object, scope_single, scope_subtree}
use nano_ldap.Entry.{DirectoryEntry, selected_attributes, attribute_display_name}

pub record Message : Type 0 where
  pub id : ℕ
  pub op : Packet
  pub raw : Packet

pub data MessageError : Type 0 where
  ber : BerError → MessageError
  invalid_message : MessageError

abbrev pub lift_ber {ℓ} : {A : Type ℓ} → Result BerError A → Result MessageError A
lift_ber (ok a) = ok a
lift_ber (err e) = err (ber e)

-- The children of the root, where there are at least two.
unfoldable pub message_of : Packet → Packets → Bytes → Result MessageError (Message × Bytes)
message_of root (cons first (cons op others)) rest = do
  id ← lift_ber (int first)
  ok (record { id = id; op = op; raw = root }, rest)
message_of root _ rest = err invalid_message

-- `readMessage`: the message, and what the reader holds behind it.
unfoldable pub read_message : Bytes → Result MessageError (Message × Bytes)
unfolding message_of
read_message s = do
  (root, rest) ← lift_ber (read s)
  if class root == class_universal && tag root == 16
      then message_of root (children root) rest
      else err invalid_message

unfoldable pub result_packet : ℕ → ℕ → Bytes → Bytes → Bytes
result_packet app_tag code matched_dn diagnostic =
    ber_application app_tag (
      concat (ber_enumerated code ∷ ber_octet_string matched_dn ∷ ber_octet_string diagnostic ∷ []))

abbrev pub attribute_packet : DirectoryEntry → Bytes × List Bytes → Bytes
attribute_packet entry (name, values) = ber_sequence (
    ber_octet_string (attribute_display_name entry name)
    ∷ ber_set (map ber_octet_string values)
    ∷ [])

-- `range` visits the keys of a Go map in an order that it leaves open; `visit` stands for that order.
unfoldable pub search_entry_packet : (Attributes → Attributes) → DirectoryEntry → List Bytes → Bytes
search_entry_packet visit entry requested = ber_application 4 (
    concat (
      ber_octet_string entry.dn
      ∷ ber_sequence (map (attribute_packet entry) (visit (selected_attributes entry requested)))
      ∷ []))

pub record SearchRequest : Type 0 where
  pub base_dn : Bytes
  pub scope : ℕ
  pub filter : Filter
  pub attributes : List Bytes

abbrev pub is_scope : ℕ → Bool
is_scope scope = scope == scope_base_object || scope == scope_single || scope == scope_subtree

abbrev pub to_option {ℓ} : {E : Type 0} {A : Type ℓ} → Result E A → Option A
to_option (ok a) = some a
to_option (err e) = none

abbrev pub when_scope : Packet → Packet → Packet → Option ℕ → Option Filter → Option SearchRequest
when_scope base filter attributes none f = none
when_scope base filter attributes (some scope) none = none
when_scope base filter attributes (some scope) (some f) =
    if is_scope scope
    then some (record {
      base_dn = content base;
      scope = scope;
      filter = f;
      attributes = map content (to_list (children attributes));
    })
    else none

-- `parseSearchRequest`; the caller only tests for an error, which is `none` here.
unfoldable pub search_request_of : Packets → Option SearchRequest
search_request_of
      (cons base (
        cons scope (
          cons deref
            (cons size (cons time (cons types (cons filter (cons attributes others)))))))) =
    when_scope base filter attributes (to_option (int scope)) (to_option (parse_filter filter))
search_request_of _ = none

unfoldable pub parse_search_request : Packet → Option SearchRequest
unfolding search_request_of
parse_search_request p = search_request_of (children p)

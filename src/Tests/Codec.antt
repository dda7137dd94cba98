-- ===== src/Tests/Codec.antt =====
-- The codec, the messages and the filters.
use nano_ldap.Prelude.{
  ℕ, ◌+◌, ◌-◌, ◌^◌, ◌≤◌, ◌<◌, ◌≡◌, ◌≢◌, refl, true, false, [], ◌∷◌, ◌++◌, ok, err, arith,
}
use nano_ldap.Text.{Bytes, codes}
use nano_ldap.Ber.Reader.{
  Packet, Packets, packet, nil, cons, read, stuck, read_length, int, max_packet_length, read_packet,
}
use nano_ldap.Ber.Writer.{append_length, ber_message, integer_content, ber_octet_string}
use nano_ldap.Ber.Fuel.{read-ne-stuck}
use nano_ldap.Ber.Length.{read_length_bounds, read_length-append_length}
use nano_ldap.Ber.Integer.{int-integer_content, integer_content_nonneg}
use nano_ldap.Filter.{
  Filter, and_filter, equality_filter, present_filter, none_left, filter, matches, parse_filter,
}
use nano_ldap.Filter.Supported.{is_ok, supported, parse_filter-supported}
use nano_ldap.Filter.Case.{fold_case, matches-fold_case}
use nano_ldap.Filter.RoundTrip.{
  Fits, fits_and, fits_equality, fits_present, no_filters, more_filters, filter_bytes, body,
  parse_filter-filter_bytes,
}
use nano_ldap.Message.{read_message, result_packet}
use nano_ldap.Message.Decode.{result_op, message_packet, read_message-result}

abbrev both : Filter
both = and_filter (
    filter (present_filter (codes "uid"))
      (filter (equality_filter (codes "CN") (codes "Admin")) none_left))

both-Fits : Fits both
unfolding body ber_octet_string append_length
both-Fits = fits_and (omega arith) (
    more_filters (fits_present (omega arith))
      (more_filters (fits_equality (omega arith) (omega arith) (omega arith)) no_filters))

read_null : read (0x05 ∷ 0x00 ∷ 9 ∷ []) ≡ ok (packet 0 5 false [] nil, 9 ∷ [])
unfolding read read_length nano_ldap.Ber.Reader.read_byte nano_ldap.Ber.Reader.read_full
    nano_ldap.Ber.Reader.decode_packet
read_null = refl

long_prefix : read_length (0x82 ∷ 0x01 ∷ 0x00 ∷ 5 ∷ []) ≡ ok (256, 5 ∷ [])
unfolding read_length
long_prefix = refl

read_message-result_example :
    read_message (ber_message 5 (result_packet 1 49 [] (codes "no")) ++ (1 ∷ []))
    ≡ ok (
      record {
        id = 5;
        op = result_op 1 49 [] (codes "no");
        raw =
            message_packet 5 (result_packet 1 49 [] (codes "no")) (result_op 1 49 [] (codes "no"));
      },
      1 ∷ [],
    )
read_message-result_example =
    read_message-result 5 1 49 [] (codes "no") (1 ∷ []) (omega arith) (omega arith) (omega arith)

parse_filter-filter_bytes_example :
    (p : Packet) × (read (filter_bytes both ++ (1 ∷ [])) ≡ ok (p, 1 ∷ []))
    × (parse_filter p ≡ ok both)
parse_filter-filter_bytes_example = parse_filter-filter_bytes both (1 ∷ []) both-Fits

read-ne-stuck_example : read (0x30 ∷ 0x80 ∷ 0x30 ∷ []) ≢ err stuck
read-ne-stuck_example = read-ne-stuck (0x30 ∷ 0x80 ∷ 0x30 ∷ [])

read_length_bounds_run : (256 ≤ max_packet_length) × (1 < 4) × (4 ≤ 1 + 5)
read_length_bounds_run = read_length_bounds (0x82 ∷ 0x01 ∷ 0x00 ∷ 5 ∷ []) 256 (5 ∷ []) long_prefix

read_length-append_length_example :
    read_length (append_length (codes "abc") ++ (7 ∷ [])) ≡ ok (3, codes "abc" ++ (7 ∷ []))
read_length-append_length_example = read_length-append_length (codes "abc") (7 ∷ [])

int-integer_content_run : int (packet 0 2 false (integer_content 300) nil) ≡ ok 300
int-integer_content_run = int-integer_content 300 0 2 false nil (omega arith)

integer_content_nonneg_run :
    (c : ℕ) × (t : Bytes) × (integer_content (2 ^ 64 - 1) ≡ c ∷ t) × (c < 128)
integer_content_nonneg_run = integer_content_nonneg (2 ^ 64 - 1)

parse_filter-supported_example :
    is_ok (parse_filter (packet 2 2 true [] (cons (packet 2 7 false (codes "cn") nil) nil)))
    ≡ supported (packet 2 2 true [] (cons (packet 2 7 false (codes "cn") nil) nil))
parse_filter-supported_example =
    parse_filter-supported (packet 2 2 true [] (cons (packet 2 7 false (codes "cn") nil) nil))

matches-fold_case_example :
    matches ((codes "cn", codes "admin" ∷ []) ∷ []) (fold_case both)
    ≡ matches ((codes "cn", codes "admin" ∷ []) ∷ []) both
matches-fold_case_example = matches-fold_case ((codes "cn", codes "admin" ∷ []) ∷ []) both

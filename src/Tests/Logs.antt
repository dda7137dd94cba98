-- ===== src/Tests/Logs.antt =====
-- The log filter, in front of a destination that keeps what it is given.
use nano_ldap.Prelude.{◌≡◌, refl, true, false, [], ◌++◌}
use nano_ldap.Text.{Bytes, codes, cut, contains, strip_prefix}
use nano_ldap.HttpLog.{Destination, FilterWriter, wrote, should_suppress, emit, write}
use nano_ldap.HttpLog.Stream.{feed, write-feed, write-append}

abbrev collect : Destination Bytes
collect dst line = (dst ++ line, true)

abbrev broken : Destination Bytes
broken dst line = (dst, false)

abbrev half_line : FilterWriter Bytes
half_line = record { dst = codes "a\n"; pending = codes "b" }

known_line :
    should_suppress
      (codes "http: TLS handshake error from x: remote error: tls: unknown certificate\n")
    ≡ true
unfolding should_suppress contains strip_prefix
known_line = refl

half_line_done :
    write collect half_line (codes "c\nd")
    ≡ wrote (record { dst = codes "a\nbc\n"; pending = codes "d" })
unfolding write cut emit should_suppress contains strip_prefix
half_line_done = refl

write-feed_run :
    write broken half_line (codes "c\nd\n") ≡ feed broken (codes "a\n") [] (codes "bc\nd\n")
write-feed_run = write-feed broken half_line (codes "c\nd\n")

write-append_example :
    write collect half_line (codes "c\nde\n")
    ≡ write collect (record { dst = codes "a\nbc\n"; pending = codes "d" }) (codes "e\n")
write-append_example =
    write-append collect half_line (codes "c\nd") (codes "e\n")
      (record { dst = codes "a\nbc\n"; pending = codes "d" }) half_line_done

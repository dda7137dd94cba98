-- ===== src/Filter/RoundTrip.antt =====
-- The BER form of a filter is read and parsed back to the filter.
use mathlib.Core.Path.{subst}
use nano_ldap.Prelude.{ℕ, ◌≡◌, refl, true, false, [], ◌∷◌, ◌++◌, arith, ok, append-nil}
use nano_ldap.Text.{Bytes}
use nano_ldap.Ber.Reader.{Packet, Packets, packet, nil, cons, read}
use nano_ldap.Ber.Writer.{append_length, ber_octet_string}
use nano_ldap.Ber.RoundTrip.{
  Reads, ReadsAll, IsShort, Reads-primitive, Reads-constructed, ReadsAll-nil, ReadsAll-cons,
  read-Reads,
}
use nano_ldap.Ber.Shapes.{octet_packet, Reads-ber_octet_string}
use nano_ldap.Filter.{
  Filter, Filters, and_filter, or_filter, equality_filter, present_filter, none_left, filter,
  parse_filter, parse_filters, parse_choice,
}

-- The content of a filter's packet, by RFC 4511, section 4.5.1.7, and its tag byte.
abbrev pub tag_byte : Filter → ℕ
tag_byte (and_filter fs) = 0xa0
tag_byte (or_filter fs) = 0xa1
tag_byte (equality_filter attr value) = 0xa3
tag_byte (present_filter attr) = 0x87

unfoldable mutual
  pub body : Filter → Bytes
  body (and_filter fs) = bodies fs
  body (or_filter fs) = bodies fs
  body (equality_filter attr value) = ber_octet_string attr ++ ber_octet_string value
  body (present_filter attr) = attr

  pub bodies : Filters → Bytes
  bodies none_left = []
  bodies (filter f fs) = (tag_byte f ∷ append_length (body f)) ++ bodies fs

abbrev pub filter_bytes : Filter → Bytes
filter_bytes f = tag_byte f ∷ append_length (body f)

-- Every content in the filter can have its length written in two bytes.
mutual
  pub data Fits : Filter → Type 0 where
    fits_and : {fs : Filters} → IsShort (bodies fs) → AllFit fs → Fits (and_filter fs)
    fits_or : {fs : Filters} → IsShort (bodies fs) → AllFit fs → Fits (or_filter fs)
    fits_equality :
        {attr value : Bytes}
        → IsShort attr
        → IsShort value
        → IsShort (ber_octet_string attr ++ ber_octet_string value)
        → Fits (equality_filter attr value)
    fits_present : {attr : Bytes} → IsShort attr → Fits (present_filter attr)

  pub data AllFit : Filters → Type 0 where
    no_filters : AllFit none_left
    more_filters : {f : Filter} {fs : Filters} → Fits f → AllFit fs → AllFit (filter f fs)

-- The packet that the bytes are read as, and what `parseFilter` makes of it.
pub record Parsed (x : Bytes) (f : Filter) : Type 0 where
  pub pkt : Packet
  pub reads : Reads x pkt
  pub parses : parse_filter pkt ≡ ok f

pub record ParsedAll (x : Bytes) (fs : Filters) : Type 0 where
  pub pkts : Packets
  pub reads_all : ReadsAll x pkts
  pub parses_all : parse_filters pkts ≡ ok fs

two_octets :
    (a v : Bytes)
    → IsShort a
    → IsShort v
    → ReadsAll
        (ber_octet_string a ++ ber_octet_string v)
        (cons (octet_packet a) (cons (octet_packet v) nil))
unfolding ber_octet_string
two_octets a v ha hv = ReadsAll-cons 0x04 (append_length a) _ _ _ (Reads-ber_octet_string a ha) (
    subst (λ s. ReadsAll s (cons (octet_packet v) nil)) (append-nil _)
      (ReadsAll-cons 0x04 (append_length v) [] _ _ (Reads-ber_octet_string v hv) ReadsAll-nil))

mutual
  unfolding body parse_filter parse_choice

  parsed : (f : Filter) → Fits f → Parsed (filter_bytes f) f
  parsed (and_filter fs) (fits_and short all) =
      let r = parsed_all fs all in
      record {
        pkt = packet 2 0 true (bodies fs) r.pkts;
        reads = Reads-constructed 0xa0 (bodies fs) r.pkts (omega arith) refl short r.reads_all;
        parses = rw r.parses_all;
      }
  parsed (or_filter fs) (fits_or short all) =
      let r = parsed_all fs all in
      record {
        pkt = packet 2 1 true (bodies fs) r.pkts;
        reads = Reads-constructed 0xa1 (bodies fs) r.pkts (omega arith) refl short r.reads_all;
        parses = rw r.parses_all;
      }
  parsed (equality_filter a v) (fits_equality ha hv short) = record {
    pkt =
        packet 2 3 true (ber_octet_string a ++ ber_octet_string v)
          (cons (octet_packet a) (cons (octet_packet v) nil));
    reads = Reads-constructed 0xa3 _ _ (omega arith) refl short (two_octets a v ha hv);
    parses = refl;
  }
  parsed (present_filter a) (fits_present short) = record {
    pkt = packet 2 7 false a nil;
    reads = Reads-primitive 0x87 a (omega arith) refl short;
    parses = refl;
  }

  parsed_all : (fs : Filters) → AllFit fs → ParsedAll (bodies fs) fs
  parsed_all none_left no_filters = record {
    pkts = nil;
    reads_all = ReadsAll-nil;
    parses_all = refl;
  }
  parsed_all (filter f fs) (more_filters h hs) =
      let r = parsed f h in
      let rs = parsed_all fs hs in
      record {
        pkts = cons r.pkt rs.pkts;
        reads_all =
            ReadsAll-cons (tag_byte f) (append_length (body f)) (bodies fs) r.pkt rs.pkts r.reads
              rs.reads_all;
        parses_all = rw (r.parses, rs.parses_all);
      }

-- The encoding of a filter, in front of any bytes, is read as a packet that `parseFilter` turns
-- back into the filter, where every content is shorter than 65536 bytes.
pub parse_filter-filter_bytes :
    (f : Filter) (rest : Bytes)
    → Fits f
    → (p : Packet) × (read (filter_bytes f ++ rest) ≡ ok (p, rest)) × (parse_filter p ≡ ok f)
parse_filter-filter_bytes f rest h =
    let r = parsed f h in (r.pkt, read-Reads (filter_bytes f) rest r.pkt r.reads, r.parses)

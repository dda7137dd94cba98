-- ===== src/Filter.antt =====
-- Search filters: internal/ldapserver/filter.go.
pub mod Supported
pub mod Case
pub mod RoundTrip
use nano_ldap.Prelude.{
  ℕ, Bool, true, false, ◌&&◌, ◌||◌, List, [], ◌∷◌, ◌==◌, if◌then◌else◌, Option, none, some, any,
  Result, ok, err, ◌>>=◌,
}
use nano_ldap.Text.{Bytes, to_lower}
use nano_ldap.Assoc.{Map, get}
use nano_ldap.Dn.{matches_attribute_value}
use nano_ldap.Ber.Reader.{Packet, Packets, packet, nil, cons, content, class_context}

mutual
  pub data Filter : Type 0 where
    and_filter : Filters → Filter
    or_filter : Filters → Filter
    equality_filter : Bytes → Bytes → Filter
    present_filter : Bytes → Filter

  pub data Filters : Type 0 where
    none_left : Filters
    filter : Filter → Filters → Filters

abbrev pub Attributes : Type 0
Attributes = Map (List Bytes)

-- `attrs[name]`, which is nil where the name is absent.
abbrev pub values_of : Option (List Bytes) → List Bytes
values_of none = []
values_of (some values) = values

abbrev pub is_present : Option (List Bytes) → Bool
is_present none = false
is_present (some values) = true

-- The methods `Match`.
unfoldable mutual
  pub matches : Attributes → Filter → Bool
  matches attrs (and_filter fs) = matches_all attrs fs
  matches attrs (or_filter fs) = matches_any attrs fs
  matches attrs (equality_filter attr value) =
      any (λ actual. matches_attribute_value attr actual value)
        (values_of (get (to_lower attr) attrs))
  matches attrs (present_filter attr) = is_present (get (to_lower attr) attrs)

  pub matches_all : Attributes → Filters → Bool
  matches_all attrs none_left = true
  matches_all attrs (filter f fs) = matches attrs f && matches_all attrs fs

  pub matches_any : Attributes → Filters → Bool
  matches_any attrs none_left = false
  matches_any attrs (filter f fs) = matches attrs f || matches_any attrs fs

pub data FilterError : Type 0 where
  too_few_children unsupported : FilterError

abbrev pub FilterResult : Type 0 → Type 0
FilterResult A = Result FilterError A

-- `case pkt.tag == 3`, behind `expectChildren(pkt, 2)`.
unfoldable pub parse_equality : Packets → FilterResult Filter
parse_equality (cons attr (cons value rest)) = ok (equality_filter (content attr) (content value))
parse_equality _ = err too_few_children

-- The switch of `parseFilter`, with the filters of the children computed by its loops.
unfoldable pub parse_choice : ℕ → ℕ → Bytes → Packets → FilterResult Filters → FilterResult Filter
unfolding parse_equality
parse_choice k t s ps fs =
    if k == class_context && t == 0
    then (fs >>= λ xs. ok (and_filter xs))
    else if k == class_context && t == 1
    then (fs >>= λ xs. ok (or_filter xs))
    else if k == class_context && t == 3
    then parse_equality ps
    else if k == class_context && t == 7
    then ok (present_filter s)
    else err unsupported

unfoldable mutual
  pub parse_filter : Packet → FilterResult Filter
  parse_filter (packet k t c s ps) = let fs = parse_filters ps in parse_choice k t s ps fs

  -- The loop over the children, which stops at the first error.
  pub parse_filters : Packets → FilterResult Filters
  parse_filters nil = ok none_left
  parse_filters (cons p ps) =
      let first = parse_filter p in
      let others = parse_filters ps in first >>= λ f. others >>= λ fs. ok (filter f fs)

-- ===== src/Filter/Supported.antt =====
-- Which packets `parseFilter` accepts.
use nano_ldap.Prelude.{
  ℕ, ◌≡◌, refl, Bool, true, false, arith, ◌==◌, ◌&&◌, ◌||◌, leb, ok, err, ◌>>=◌,
}
use nano_ldap.Text.{Bytes}
use nano_ldap.Ber.Reader.{Packet, Packets, packet, nil, cons, count}
use nano_ldap.Filter.{
  Filter, Filters, FilterResult, parse_equality, parse_choice, parse_filter, parse_filters,
}

abbrev pub is_ok : {A : Type 0} → FilterResult A → Bool
is_ok (ok a) = true
is_ok (err e) = false

-- Context tags 0 and 1 over supported filters, 3 over at least two children, and 7.
abbrev pub supported_choice : ℕ → ℕ → Packets → Bool → Bool
supported_choice k t ps all =
    k == 2 && ((t == 0 && all) || (t == 1 && all) || (t == 3 && leb 2 (count ps)) || t == 7)

unfoldable mutual
  pub supported : Packet → Bool
  supported (packet k t c s ps) = let all = all_supported ps in supported_choice k t ps all

  pub all_supported : Packets → Bool
  all_supported nil = true
  all_supported (cons p ps) = supported p && all_supported ps

parse_equality_lem : (ps : Packets) → is_ok (parse_equality ps) ≡ leb 2 (count ps)
unfolding parse_equality
parse_equality_lem nil = refl
parse_equality_lem (cons p nil) = refl
parse_equality_lem (cons p (cons q ps)) = ground arith

choice :
    (k t : ℕ) (s : Bytes) (ps : Packets) (fs : FilterResult Filters) (all : Bool)
    → is_ok fs ≡ all
    → is_ok (parse_choice k t s ps fs) ≡ supported_choice k t ps all
unfolding parse_choice
choice k t s ps (ok fs) all e = ground (arith, parse_equality_lem ps)
choice k t s ps (err x) all e = ground (arith, parse_equality_lem ps)

both :
    (first : FilterResult Filter) (others : FilterResult Filters) (a b : Bool)
    → is_ok first ≡ a
    → is_ok others ≡ b
    → is_ok (first >>= λ f. others >>= λ fs. ok (Filters.filter f fs)) ≡ (a && b)
both (ok f) (ok fs) a b p q = ground arith
both (ok f) (err x) a b p q = ground arith
both (err y) others a b p q = ground arith

mutual
  unfolding parse_filter supported

  accepted : (p : Packet) → is_ok (parse_filter p) ≡ supported p
  accepted (packet k t c s ps) =
      choice k t s ps (parse_filters ps) (all_supported ps) (accepted_all ps)

  accepted_all : (ps : Packets) → is_ok (parse_filters ps) ≡ all_supported ps
  accepted_all nil = refl
  accepted_all (cons p ps) =
      both (parse_filter p) (parse_filters ps) (supported p) (all_supported ps) (accepted p)
        (accepted_all ps)

-- `parseFilter` succeeds exactly on nested and, or, equality and presence filters; one unsupported
-- filter at any depth makes it fail.
pub parse_filter-supported : (p : Packet) → is_ok (parse_filter p) ≡ supported p
parse_filter-supported p = accepted p

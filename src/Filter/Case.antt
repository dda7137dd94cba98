-- ===== src/Filter/Case.antt =====
-- The case of attribute names and values in a filter makes no difference.
use nano_ldap.Prelude.{
  ℕ, ◌≡◌, refl, Bool, List, [], ◌∷◌, arith, map, ap, ◌∙◌, sym, ◌==◌, any, Bool-cases, inl, inr,
}
use nano_ldap.Text.{Bytes, lower, to_lower, trim_space, split, join, equal_fold, beq, cons_head}
use nano_ldap.Text.Case.{to_lower-to_lower, trim_space-to_lower}
use nano_ldap.Dn.{
  normalize_rdn, normalize_dn, normalize_comparable_dn, matches_attribute_value, is_dn_attribute,
}
use nano_ldap.Assoc.{get}
use nano_ldap.Filter.{
  Filter, Filters, and_filter, or_filter, equality_filter, present_filter, none_left, filter,
  Attributes, values_of, matches, matches_all, matches_any,
}

map-cons_head :
    (c : ℕ) (xs : List Bytes)
    → map to_lower (cons_head c xs) ≡ cons_head (lower c) (map to_lower xs)
unfolding to_lower
map-cons_head c [] = refl
map-cons_head c (x ∷ xs) = refl

lower_comma : (c : ℕ) → (lower c == b',') ≡ (c == b',')
unfolding lower
lower_comma c = ground arith

split-to_lower : (s : Bytes) → split b',' (to_lower s) ≡ map to_lower (split b',' s)
unfolding split to_lower
split-to_lower [] = refl
split-to_lower (c ∷ s) = elim (Bool-cases (c == b',')) [
  | inl e ↦ rw (lower_comma c, e) (ap (◌∷◌ []) (split-to_lower s))
  | inr e ↦
      rw (lower_comma c, e)
        (ap (cons_head (lower c)) (split-to_lower s) ∙ sym (map-cons_head c (split b',' s)))
]

map-normalize_rdn-to_lower :
    (xs : List Bytes) → map normalize_rdn (map to_lower xs) ≡ map normalize_rdn xs
map-normalize_rdn-to_lower [] = refl
map-normalize_rdn-to_lower (x ∷ xs) = cc (
  ap to_lower (trim_space-to_lower x) ∙ to_lower-to_lower (trim_space x),
  map-normalize_rdn-to_lower xs,
)

pub normalize_dn-to_lower : (s : Bytes) → normalize_dn (to_lower s) ≡ normalize_dn s
unfolding normalize_dn
normalize_dn-to_lower s =
    ap (λ xs. join b',' (map normalize_rdn xs)) (split-to_lower s)
    ∙ ap (join b',') (map-normalize_rdn-to_lower (split b',' s))

comparable-to_lower : (s : Bytes) → normalize_comparable_dn (to_lower s) ≡ normalize_comparable_dn s
unfolding normalize_comparable_dn
comparable-to_lower s = rw (normalize_dn-to_lower s)

equal_fold-to_lower : (s t : Bytes) → equal_fold s (to_lower t) ≡ equal_fold s t
unfolding equal_fold
equal_fold-to_lower s t = ap (beq (to_lower s)) (to_lower-to_lower t)

matches_value-to_lower :
    (attr actual wanted : Bytes)
    → matches_attribute_value (to_lower attr) actual (to_lower wanted)
      ≡ matches_attribute_value attr actual wanted
unfolding matches_attribute_value
matches_value-to_lower attr actual wanted = elim (Bool-cases (is_dn_attribute (to_lower attr))) [
  | inl e ↦
      rw (to_lower-to_lower attr, e)
        (ap (beq (normalize_comparable_dn actual)) (comparable-to_lower wanted))
  | inr e ↦ rw (to_lower-to_lower attr, e) (equal_fold-to_lower actual wanted)
]

any_ext : (p q : Bytes → Bool) (xs : List Bytes) → ((x : Bytes) → p x ≡ q x) → any p xs ≡ any q xs
any_ext p q [] h = refl
any_ext p q (x ∷ xs) h = cc (h x, any_ext p q xs h)

-- A filter with its names and values in lower case.
unfoldable mutual
  pub fold_case : Filter → Filter
  fold_case (and_filter fs) = and_filter (fold_cases fs)
  fold_case (or_filter fs) = or_filter (fold_cases fs)
  fold_case (equality_filter attr value) = equality_filter (to_lower attr) (to_lower value)
  fold_case (present_filter attr) = present_filter (to_lower attr)

  pub fold_cases : Filters → Filters
  fold_cases none_left = none_left
  fold_cases (filter f fs) = filter (fold_case f) (fold_cases fs)

mutual
  unfolding matches fold_case

  matches_folded : (attrs : Attributes) (f : Filter) → matches attrs (fold_case f) ≡ matches attrs f
  matches_folded attrs (and_filter fs) = matches_all_folded attrs fs
  matches_folded attrs (or_filter fs) = matches_any_folded attrs fs
  matches_folded attrs (equality_filter attr value) = rw (to_lower-to_lower attr) (
      any_ext _ _ (values_of (get (to_lower attr) attrs))
        (λ actual. matches_value-to_lower attr actual value))
  matches_folded attrs (present_filter attr) = rw (to_lower-to_lower attr)

  matches_all_folded :
      (attrs : Attributes) (fs : Filters) → matches_all attrs (fold_cases fs) ≡ matches_all attrs fs
  matches_all_folded attrs none_left = refl
  matches_all_folded attrs (filter f fs) = cc (matches_folded attrs f, matches_all_folded attrs fs)

  matches_any_folded :
      (attrs : Attributes) (fs : Filters) → matches_any attrs (fold_cases fs) ≡ matches_any attrs fs
  matches_any_folded attrs none_left = refl
  matches_any_folded attrs (filter f fs) = cc (matches_folded attrs f, matches_any_folded attrs fs)

-- A filter matches an entry exactly when the filter with all its names and values in lower case
-- does.
pub matches-fold_case :
    (attrs : Attributes) (f : Filter) → matches attrs (fold_case f) ≡ matches attrs f
matches-fold_case attrs f = matches_folded attrs f

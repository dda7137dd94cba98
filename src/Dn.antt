-- ===== src/Dn.antt =====
-- Distinguished names: the name functions of internal/ldapserver/server.go, and
-- `normalizeComparableDN` and `matchesAttributeValue` of internal/ldapserver/filter.go.
pub mod Normalize
pub mod Scope
pub mod Username
use nano_ldap.Prelude.{
  ℕ, Bool, true, false, not, ◌&&◌, ◌||◌, List, [], ◌∷◌, ◌++◌, map, ◌==◌, if◌then◌else◌, Option,
  none, some, is_some,
}
use nano_ldap.Text.{
  Bytes, codes, beq, is_empty, to_lower, equal_fold, trim_space, split, join, cut, strip_suffix,
  replace_first,
}

abbrev pub normalize_rdn : Bytes → Bytes
normalize_rdn part = to_lower (trim_space part)

unfoldable pub normalize_dn : Bytes → Bytes
normalize_dn dn = join b',' (map normalize_rdn (split b',' dn))

abbrev pub user_dn : Bytes → Bytes → Bytes
user_dn base username = codes "uid=" ++ (username ++ (b',' ∷ base))

abbrev pub group_dn : Bytes → Bytes → Bytes
group_dn base name = codes "cn=" ++ (name ++ (b',' ∷ base))

abbrev pub people_base_dn : Bytes → Bytes
people_base_dn base = codes "ou=people," ++ base

abbrev pub groups_base_dn : Bytes → Bytes
groups_base_dn base = codes "ou=groups," ++ base

abbrev pub legacy_user_dn : Bytes → Bytes → Bytes
legacy_user_dn base username = user_dn (people_base_dn base) username

abbrev pub legacy_group_dn : Bytes → Bytes → Bytes
legacy_group_dn base name = group_dn (groups_base_dn base) name

-- `strings.SplitN(dn, ",", 2)`, and its second part.
unfoldable pub parent_dn : Bytes → Bytes
parent_dn dn = elim (cut b',' dn) [ some (rdn, parent) ↦ parent | none ↦ [] ]

abbrev pub scope_base_object : ℕ
scope_base_object = 0

abbrev pub scope_single : ℕ
scope_single = 1

abbrev pub scope_subtree : ℕ
scope_subtree = 2

-- The switch of `dnWithinScope`, on normalised names.
unfoldable pub within_scope : Bytes → ℕ → Bytes → Bool
unfolding parent_dn
within_scope base scope entry =
    if scope == scope_base_object
    then beq entry base
    else if scope == scope_single
    then beq (parent_dn entry) base
    else if scope == scope_subtree
    then beq entry base || is_some (strip_suffix entry (b',' ∷ base))
    else false

unfoldable pub dn_within_scope : Bytes → ℕ → Bytes → Bool
unfolding within_scope normalize_dn
dn_within_scope base scope entry = within_scope (normalize_dn base) scope (normalize_dn entry)

-- The check of the relative name at the end of `usernameFromDN`.
unfoldable pub username_of : Bytes → Option Bytes
username_of rdn = elim (cut b'=' rdn) [
  | none ↦ none
  | some (attr, value) ↦ if beq attr (codes "uid") && not (is_empty value) then some value else none
]

-- `usernameFromDN` on normalised names: `none` is the result `("", false)`.
unfoldable pub username_in : Bytes → Bytes → Option Bytes
unfolding username_of
username_in base dn = elim (strip_suffix dn (codes ",ou=people," ++ base)) [
  | some rdn ↦ username_of rdn
  | none ↦ elim (strip_suffix dn (b',' ∷ base)) [ some rdn ↦ username_of rdn | none ↦ none ]
]

unfoldable pub username_from_dn : Bytes → Bytes → Option Bytes
unfolding username_in normalize_dn
username_from_dn base dn = username_in (normalize_dn base) (normalize_dn dn)

unfoldable pub normalize_comparable_dn : Bytes → Bytes
unfolding normalize_dn
normalize_comparable_dn dn =
    replace_first (replace_first (normalize_dn dn) (codes ",ou=people,") (codes ","))
      (codes ",ou=groups,") (codes ",")

abbrev pub is_dn_attribute : Bytes → Bool
is_dn_attribute attr =
    beq attr (codes "member") || beq attr (codes "memberof") || beq attr (codes "uniquemember")

unfoldable pub matches_attribute_value : Bytes → Bytes → Bytes → Bool
unfolding normalize_comparable_dn
matches_attribute_value attr actual wanted =
    if is_dn_attribute (to_lower attr)
    then beq (normalize_comparable_dn actual) (normalize_comparable_dn wanted)
    else equal_fold actual wanted

-- ===== src/Tests/Names.antt =====
-- The base DN, the names, the entries and what is visible.
use nano_ldap.Prelude.{
  ℕ, ◌≡◌, ◌≢◌, refl, Bool, true, false, List, [], ◌∷◌, ◌++◌, ok, err, arith, none, some, map, keep,
  ◌↔◌, ◌⊎◌, if◌then◌else◌,
}
use nano_ldap.Text.{
  Bytes, codes, beq, to_lower, lower, trim_space, equal_fold, join, split, cut, trim_left,
  trim_right, is_space,
}
use nano_ldap.Assoc.{get, Distinct}
use nano_ldap.Directory.{BaseDnError, normalize_base_dn, normalize_part, Settings, set_base_dn}
use nano_ldap.Directory.Normal.{
  IsNormal, HoldsNormal, IsNormal-normalize_base_dn, normalize_base_dn_idem,
  set_base_dn-HoldsNormal,
}
use nano_ldap.Dn.{
  normalize_dn, user_dn, legacy_user_dn, dn_within_scope, scope_single, scope_subtree,
  username_from_dn,
}
use nano_ldap.Dn.Normalize.{normalize_dn_idem}
use nano_ldap.Dn.Scope.{
  IsUnder, dn_within_scope-subtree_iff, dn_within_scope-single_subtree,
  dn_within_scope-normalize_dn,
}
use nano_ldap.Dn.Username.{IsPlain, Names, username_from_dn-user_dn, username_from_dn_sound}
use nano_ldap.Entry.{
  root_dse, user_entry, group_entry, selected_attributes, is_member_of, dc_components,
}
use nano_ldap.Entry.Selection.{selects, get-selected_attributes}
use nano_ldap.Entry.Domain.{dc_components-IsNormal}
use nano_ldap.Visible.{admin_names, containers, visible_entries, is_in, group_name, user_name}
use nano_ldap.Visible.Access.{visible_entries_admin, visible_entries_other}
use nano_ldap.Tests.Data.{base_dn, admin, user, guest, users_group, admins_group}

abbrev spaced : Bytes
spaced = codes " DC = example , dc=com"

spaced_normal : normalize_base_dn spaced ≡ ok base_dn
unfolding normalize_base_dn normalize_part split join cut trim_space trim_left trim_right is_space
    equal_fold beq to_lower lower
spaced_normal = refl

IsNormal-normalize_base_dn_run : IsNormal base_dn
IsNormal-normalize_base_dn_run = IsNormal-normalize_base_dn spaced base_dn spaced_normal

base_dn_again : normalize_base_dn base_dn ≡ ok base_dn
base_dn_again = normalize_base_dn_idem spaced base_dn spaced_normal

abbrev settings : Settings
settings = record { base_dn = base_dn }

set_base_dn-HoldsNormal_run :
    HoldsNormal (set_base_dn settings (codes "cn=x")).0
    × ((normalize_base_dn (codes "cn=x") ≡ ok (set_base_dn settings (codes "cn=x")).0.base_dn)
        ⊎ ((set_base_dn settings (codes "cn=x")).0 ≡ settings))
set_base_dn-HoldsNormal_run =
    set_base_dn-HoldsNormal settings (codes "cn=x")
      (normalize_base_dn_idem spaced base_dn spaced_normal)

dc_components-IsNormal_run : dc_components base_dn ≡ codes "example" ∷ codes "com" ∷ []
dc_components-IsNormal_run = dc_components-IsNormal base_dn (record {
  first = codes "example";
  others = codes "com" ∷ [];
  are_components = parts;
  shape = unfold join in refl;
})
  where
    parts :
        nano_ldap.Prelude.All nano_ldap.Directory.Components.IsComponent
          (codes "example" ∷ codes "com" ∷ [])
    parts = (
      record {
        is_trimmed = unfold trim_space trim_left trim_right is_space in refl;
        ne_nil = λ e. cc;
        no_comma = refl;
      },
      (
        record {
          is_trimmed = unfold trim_space trim_left trim_right is_space in refl;
          ne_nil = λ e. cc;
          no_comma = refl;
        },
        tt,
      ),
    )

spaced_again : normalize_dn (normalize_dn spaced) ≡ normalize_dn spaced
spaced_again = normalize_dn_idem spaced

user_IsPlain : IsPlain (codes "user")
unfolding to_lower lower trim_space trim_left trim_right is_space
user_IsPlain = record { is_lower = refl; is_trimmed = refl; ne_nil = λ e. cc; no_comma = refl }

username_from_dn-user_dn_example :
    (username_from_dn base_dn (user_dn base_dn (codes "user")) ≡ some (codes "user"))
    × (username_from_dn base_dn (legacy_user_dn base_dn (codes "user")) ≡ some (codes "user"))
username_from_dn-user_dn_example = username_from_dn-user_dn base_dn (codes "user") user_IsPlain

username_from_dn_sound_example : Names base_dn (user_dn base_dn (codes "user")) (codes "user")
username_from_dn_sound_example =
    username_from_dn_sound base_dn (user_dn base_dn (codes "user")) (codes "user")
      (username_from_dn-user_dn base_dn (codes "user") user_IsPlain).0

dn_within_scope-subtree_iff_run :
    (dn_within_scope (codes "dc=com") scope_subtree base_dn ≡ true)
    ↔ IsUnder (normalize_dn (codes "dc=com")) (normalize_dn base_dn)
dn_within_scope-subtree_iff_run = dn_within_scope-subtree_iff (codes "dc=com") base_dn

below_com : dn_within_scope (codes "dc=com") scope_single base_dn ≡ true
unfolding dn_within_scope split join trim_space trim_left trim_right is_space to_lower lower cut beq
below_com = refl

com_ne_nil : normalize_dn (codes "dc=com") ≢ []
unfolding normalize_dn split join trim_space trim_left trim_right is_space to_lower lower
com_ne_nil e = cc

dn_within_scope-single_subtree_run : dn_within_scope (codes "dc=com") scope_subtree base_dn ≡ true
dn_within_scope-single_subtree_run =
    dn_within_scope-single_subtree (codes "dc=com") base_dn com_ne_nil below_com

same_in_any_case :
    dn_within_scope (normalize_dn (codes "DC=com")) scope_subtree (normalize_dn spaced)
    ≡ dn_within_scope (codes "DC=com") scope_subtree spaced
same_in_any_case = dn_within_scope-normalize_dn (codes "DC=com") scope_subtree spaced

user_Distinct : Distinct (user_entry base_dn user).attrs
unfolding get beq
user_Distinct = (refl, (refl, (refl, (refl, (refl, (refl, tt))))))

get-selected_attributes_example :
    get (codes "uid") (selected_attributes (user_entry base_dn user) (codes "UID" ∷ [])) ≡ (
      if selects (user_entry base_dn user) (codes "UID" ∷ []) (codes "uid")
      then get (codes "uid") (user_entry base_dn user).attrs
      else none)
get-selected_attributes_example =
    get-selected_attributes (user_entry base_dn user) (codes "UID" ∷ []) (codes "uid") user_Distinct

-- A search of the Root DSE with `*` alone leaves out the operational `namingContexts`; with `ALL` and
-- with `*` and `+` it does not.
naming_contexts_star :
    get (codes "namingcontexts") (selected_attributes (root_dse base_dn) (codes "*" ∷ [])) ≡ none
unfolding selected_attributes get beq nano_ldap.Entry.select_requested
    nano_ldap.Entry.requests_all_user to_lower trim_space trim_right trim_left is_space lower
    nano_ldap.Entry.requests_all_operational nano_ldap.Entry.select_where
    nano_ldap.Entry.is_operational nano_ldap.Assoc.put nano_ldap.Entry.select_named
naming_contexts_star = refl

naming_contexts_all :
    (get (codes "namingcontexts") (selected_attributes (root_dse base_dn) (codes "ALL" ∷ []))
      ≡ some (base_dn ∷ []))
    × (get
          (codes "namingcontexts")
          (selected_attributes (root_dse base_dn) (codes "*" ∷ codes "+" ∷ []))
        ≡ some (base_dn ∷ []))
unfolding selected_attributes get beq nano_ldap.Entry.select_requested
    nano_ldap.Entry.requests_all_user to_lower trim_space trim_right trim_left is_space lower
    nano_ldap.Entry.requests_all_operational
naming_contexts_all = (refl, refl)

admin_is_admin : is_member_of admin admin_names ≡ true
unfolding is_member_of equal_fold beq to_lower lower
admin_is_admin = refl

user_is_other : is_member_of user admin_names ≡ false
unfolding is_member_of equal_fold beq to_lower lower
user_is_other = refl

visible_entries_admin_run :
    visible_entries admin base_dn (user ∷ []) (users_group ∷ [])
    ≡ containers base_dn
      ++ (map (user_entry base_dn) (user ∷ []) ++ map (group_entry base_dn) (users_group ∷ []))
visible_entries_admin_run =
    visible_entries_admin admin base_dn (user ∷ []) (users_group ∷ []) admin_is_admin

visible_entries_other_run :
    visible_entries user base_dn (user ∷ guest ∷ []) (users_group ∷ admins_group ∷ [])
    ≡ containers base_dn
      ++ (map
            (user_entry base_dn)
            (keep (λ candidate. beq user.username (user_name candidate)) (user ∷ guest ∷ []))
          ++ map (group_entry base_dn) (
              keep
                (λ group. is_in (map group_name user.groups) (group_name group))
                (users_group ∷ admins_group ∷ [])))
visible_entries_other_run =
    visible_entries_other user base_dn (user ∷ guest ∷ []) (users_group ∷ admins_group ∷ [])
      user_is_other

-- ===== src/Entry.antt =====
-- Users, groups and directory entries: the records of internal/store/store.go, and the entries and
-- attributes of internal/ldapserver/server.go.
pub mod Selection
pub mod Domain
use nano_ldap.Prelude.{
  ℕ, Bool, true, false, not, ◌&&◌, ◌||◌, List, [], ◌∷◌, ◌++◌, map, any, if◌then◌else◌, Option, none,
  some, ◌==◌,
}
use nano_ldap.Text.{Bytes, codes, beq, to_lower, equal_fold, trim_space, split, cut}
use nano_ldap.Assoc.{Map, get, put}
use nano_ldap.Filter.{Attributes}
use nano_ldap.Dn.{
  user_dn, group_dn, legacy_user_dn, legacy_group_dn, dn_within_scope, scope_base_object,
  scope_subtree,
}

pub record Group : Type 0 where
  pub id : ℕ
  pub name : Bytes
  pub description : Bytes
  pub member_uids : List Bytes

pub record User : Type 0 where
  pub id : ℕ
  pub username : Bytes
  pub password_hash : Bytes
  pub display_name : Bytes
  pub disabled : Bool
  pub created_at : ℕ
  pub updated_at : ℕ
  pub groups : List Group

-- `store.IsMemberOf`.
unfoldable pub is_member_of : User → List Bytes → Bool
is_member_of user names =
    any (λ (group : Group). any (λ candidate. equal_fold group.name candidate) names) user.groups

-- `operationalAttrs` is the list of the keys of a Go set.
pub record DirectoryEntry : Type 0 where
  pub dn : Bytes
  pub alias_dns : List Bytes
  pub attrs : Attributes
  pub display_attrs : Map Bytes
  pub operational_attrs : List Bytes

abbrev pub one : Bytes → List Bytes
one s = s ∷ []

abbrev pub root_dse : Bytes → DirectoryEntry
root_dse base = record {
  dn = [];
  alias_dns = [];
  attrs =
      (codes "namingcontexts", one base)
      ∷ (codes "supportedldapversion", one (codes "3"))
      ∷ (codes "vendorname", one (codes "NanoLDAP"))
      ∷ (codes "objectclass", one (codes "top"))
      ∷ [];
  display_attrs =
      (codes "namingcontexts", codes "namingContexts")
      ∷ (codes "supportedldapversion", codes "supportedLDAPVersion")
      ∷ (codes "vendorname", codes "vendorName")
      ∷ (codes "objectclass", codes "objectClass")
      ∷ [];
  operational_attrs =
      codes "namingcontexts" ∷ codes "supportedldapversion" ∷ codes "vendorname" ∷ [];
}

-- The value that the loop of `dcComponents` takes from a part, if it takes one.
unfoldable pub dc_value : Bytes → List Bytes
dc_value part = elim (cut b'=' (trim_space part)) [
  | none ↦ []
  | some (attr, value) ↦
      if equal_fold (trim_space attr) (codes "dc") then trim_space value ∷ [] else []
]

unfoldable pub dc_values : List Bytes → List Bytes
dc_values [] = []
dc_values (part ∷ parts) = dc_value part ++ dc_values parts

unfoldable pub dc_components : Bytes → List Bytes
unfolding dc_values
dc_components base = dc_values (split b',' base)

abbrev pub base_entry : Bytes → DirectoryEntry
base_entry base = record {
  dn = base;
  alias_dns = [];
  attrs =
      (codes "objectclass", codes "top" ∷ codes "domain" ∷ [])
      ∷ (codes "dc", dc_components base)
      ∷ [];
  display_attrs = [];
  operational_attrs = [];
}

abbrev pub container_entry : Bytes → Bytes → DirectoryEntry
container_entry ou base = record {
  dn = codes "ou=" ++ (ou ++ (b',' ∷ base));
  alias_dns = [];
  attrs =
      (codes "objectclass", codes "top" ∷ codes "organizationalUnit" ∷ [])
      ∷ (codes "ou", one ou)
      ∷ [];
  display_attrs = [];
  operational_attrs = [];
}

abbrev pub user_entry : Bytes → User → DirectoryEntry
user_entry base user = record {
  dn = user_dn base user.username;
  alias_dns = one (legacy_user_dn base user.username);
  attrs =
      (codes "objectclass", one (codes "inetOrgPerson"))
      ∷ (codes "uid", one user.username)
      ∷ (codes "cn", one user.username)
      ∷ (codes "displayname", one user.display_name)
      ∷ (codes "memberof", map (λ (group : Group). group_dn base group.name) user.groups)
      ∷ (codes "distinguishedname", one (user_dn base user.username))
      ∷ [];
  display_attrs = [];
  operational_attrs = [];
}

abbrev pub group_entry : Bytes → Group → DirectoryEntry
group_entry base group = record {
  dn = group_dn base group.name;
  alias_dns = one (legacy_group_dn base group.name);
  attrs =
      (codes "objectclass", one (codes "groupOfNames"))
      ∷ (codes "cn", one group.name)
      ∷ (codes "member", map (user_dn base) group.member_uids)
      ∷ (codes "uniquemember", map (user_dn base) group.member_uids)
      ∷ (codes "memberuid", group.member_uids)
      ∷ [];
  display_attrs = [];
  operational_attrs = [];
}

unfoldable pub entry_within_scope : Bytes → ℕ → DirectoryEntry → Bool
entry_within_scope base scope entry =
    any (λ candidate. dn_within_scope base scope candidate) (entry.dn ∷ entry.alias_dns)

-- The two loops that look for `*`, `+` and `all`.
unfoldable pub requests_all_user : List Bytes → Bool
requests_all_user = any (λ name.
    beq (to_lower (trim_space name)) (codes "*") || beq (to_lower (trim_space name)) (codes "all"))

unfoldable pub requests_all_operational : List Bytes → Bool
requests_all_operational = any (λ name.
    beq (to_lower (trim_space name)) (codes "+") || beq (to_lower (trim_space name)) (codes "all"))

unfoldable pub is_operational : DirectoryEntry → Bytes → Bool
is_operational entry name = any (beq (to_lower name)) entry.operational_attrs

abbrev pub is_wildcard : Bytes → Bool
is_wildcard name = beq name (codes "*") || beq name (codes "+") || beq name (codes "all")

abbrev pub put_found : Bytes → Option (List Bytes) → Attributes → Attributes
put_found name none selected = selected
put_found name (some values) selected = put name values selected

-- The loop over the requested names.
unfoldable pub select_named : Attributes → List Bytes → Attributes → Attributes
select_named attrs [] selected = selected
select_named attrs (name ∷ names) selected = select_named attrs names (
    if is_wildcard (to_lower name)
    then selected
    else put_found (to_lower name) (get (to_lower name) attrs) selected)

-- A loop over all attributes of the entry that takes those which pass a test.
unfoldable pub select_where : (Bytes → Bool) → Attributes → Attributes → Attributes
select_where p [] selected = selected
select_where p ((name, values) ∷ attrs) selected =
    select_where p attrs (if p name then put name values selected else selected)

-- `selectedAttributes` behind its first two returns; the flags are `includeUserAttrs` and
-- `includeOperationalAttrs`.
unfoldable pub select_requested : Bool → Bool → DirectoryEntry → List Bytes → Attributes
select_requested users operational entry requested =
    let named = select_named entry.attrs requested [] in
    let with_users =
      if users
      then select_where (λ name. not (is_operational entry name)) entry.attrs named
      else named in
    let with_both =
      if operational
      then select_where (is_operational entry) entry.attrs with_users
      else with_users in
    if users && operational then entry.attrs else with_both

abbrev pub no_names : List Bytes → Bool
no_names [] = true
no_names (name ∷ names) = false

unfoldable pub selected_attributes : DirectoryEntry → List Bytes → Attributes
selected_attributes entry requested =
    if any (beq (codes "1.1")) requested
    then []
    else if no_names requested
    then entry.attrs
    else select_requested (requests_all_user requested) (requests_all_operational requested) entry
        requested

unfoldable pub attribute_display_name : DirectoryEntry → Bytes → Bytes
attribute_display_name entry name = elim (get (to_lower name) entry.display_attrs) [
  | some shown ↦ shown
  | none ↦ name
]

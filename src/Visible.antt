-- ===== src/Visible.antt =====
-- `visibleEntries` of internal/ldapserver/server.go: what a bound user may see.
pub mod Access
use nano_ldap.Prelude.{Bool, true, false, List, [], ◌∷◌, ◌++◌, map, any, keep, if◌then◌else◌}
use nano_ldap.Text.{Bytes, codes, beq}
use nano_ldap.Entry.{
  User, Group, DirectoryEntry, is_member_of, base_entry, container_entry, user_entry, group_entry,
}

abbrev pub group_name : Group → Bytes
group_name group = group.name

abbrev pub user_name : User → Bytes
user_name user = user.username

abbrev pub is_in : List Bytes → Bytes → Bool
is_in names name = any (λ x. beq x name) names

-- The Go set `allowedUsernames`, as the list of what is put into it.
unfoldable pub allowed_usernames : Bool → User → List User → List Bytes
allowed_usernames admin_scope user all_users =
    if admin_scope then user.username ∷ map user_name all_users else user.username ∷ []

-- The Go set `allowedGroups`.
unfoldable pub allowed_groups : Bool → User → List Group → List Bytes
allowed_groups admin_scope user all_groups =
    if admin_scope then map group_name all_groups else map group_name user.groups

abbrev pub admin_names : List Bytes
admin_names = codes "admins" ∷ codes "mvradmins" ∷ []

abbrev pub containers : Bytes → List DirectoryEntry
containers base =
    base_entry base
    ∷ container_entry (codes "people") base
    ∷ container_entry (codes "groups") base
    ∷ []

unfoldable pub visible_entries : User → Bytes → List User → List Group → List DirectoryEntry
unfolding allowed_usernames allowed_groups
visible_entries user base all_users all_groups =
    let admin_scope = is_member_of user admin_names in
    let usernames = allowed_usernames admin_scope user all_users in
    let names = allowed_groups admin_scope user all_groups in
    containers base
    ++ (map (user_entry base) (keep (λ candidate. is_in usernames (user_name candidate)) all_users)
        ++ map (group_entry base) (keep (λ group. is_in names (group_name group)) all_groups))

-- ===== src/Tests/Stores.antt =====
-- The store, from the tables that `Migrate` leaves.
use nano_ldap.Prelude.{
  ◌≡◌, refl, true, false, List, [], ◌∷◌, ◌++◌, Option, some, ok, err, ◌⊎◌, arith,
}
use nano_ldap.Text.{
  Bytes, codes, beq, split, cut, join, equal_fold, to_lower, lower, trim_space, trim_left,
  trim_right, is_space,
}
use nano_ldap.Directory.{normalize_base_dn, normalize_part}
use nano_ldap.Entry.{User, Group}
use nano_ldap.Accounts.{UserInput, unique_names, display_or_username}
use nano_ldap.Sql.{
  Tables, migrated, user_with_id, group_with_id, group_with_name, insert_user, insert_group,
  insert_membership, update_user_row, delete_memberships, groups_of, insert_base_dn,
}
use nano_ldap.Sql.Valid.{IsValid, migrated-IsValid}
use nano_ldap.Store.{
  create_user, create_user_tx, create_group, assign_groups, update_user, update_user_tx,
  updated_hash, updated_display, get_user_by_id, get_group_by_id, scan_user, user_groups,
  read_base_dn, ensure_base_dn, insert_fallback, normalized, constraint,
}
use nano_ldap.Store.Seed.{seed_defaults, create_groups, create_users}
use nano_ldap.Store.Integrity.{Call, perform_all, perform_all-IsValid, creates_user, creates_group}
use nano_ldap.Store.Creation.{is_acceptable, create_user-is_ok, Created, create_user-Created}
use nano_ldap.Store.Users.{Updated, update_user-Updated, update_user-others}
use nano_ldap.Store.Total.{is_ok}
use nano_ldap.Store.BaseDn.{ensure_base_dn_once}

abbrev hash : Bytes → Option Bytes
hash password = some (codes "h:" ++ password)

abbrev input : Bytes → Bytes → List Bytes → UserInput
input name password groups = record {
  username = name;
  password = password;
  display_name = [];
  disabled = false;
  group_names = groups;
}

abbrev ann : UserInput
ann = input (codes " ann") (codes "pw") (codes "users" ∷ codes " Users" ∷ [])

abbrev bob : UserInput
bob = input (codes "bob") (codes "pw") (codes "users" ∷ [])

abbrev calls : List Call
calls =
    creates_group (record { name = codes "admins"; description = [] })
    ∷ creates_group (record { name = codes "users"; description = [] })
    ∷ creates_user hash 5 bob
    ∷ []

abbrev filled : Tables
filled = perform_all migrated calls

perform_all-IsValid_example : IsValid filled
perform_all-IsValid_example = perform_all-IsValid migrated calls migrated-IsValid

create_user-is_ok_example :
    (is_ok (create_user hash 6 filled bob).1 ≡ is_acceptable hash filled bob)
    × ((is_ok (create_user hash 6 filled bob).1 ≡ true)
        ⊎ ((create_user hash 6 filled bob).0 ≡ filled))
create_user-is_ok_example =
    create_user-is_ok hash 6 filled bob (perform_all-IsValid migrated calls migrated-IsValid)

bob_is_there : (create_user hash 6 filled bob).1 ≡ err constraint
unfolding perform_all create_user create_user_tx insert_user assign_groups insert_membership
    get_user_by_id user_with_id scan_user user_groups groups_of group_with_name trim_space trim_left
    trim_right is_space to_lower lower beq create_group insert_group unique_names
bob_is_there = refl

abbrev users_group : Group
users_group = record { id = 2; name = codes "users"; description = []; member_uids = [] }

abbrev ann_user : User
ann_user = record {
  id = 2;
  username = codes "ann";
  password_hash = codes "h:pw";
  display_name = codes "ann";
  disabled = false;
  created_at = 6;
  updated_at = 6;
  groups = users_group ∷ [];
}

abbrev with_ann : Tables
with_ann = (create_user hash 6 filled ann).0

ann_made : create_user hash 6 filled ann ≡ (with_ann, ok ann_user)
unfolding perform_all create_user create_user_tx insert_user assign_groups insert_membership
    get_user_by_id user_with_id scan_user user_groups groups_of group_with_name trim_space trim_left
    trim_right is_space to_lower lower beq create_group insert_group unique_names
    display_or_username
ann_made = refl

create_user-Created_example : Created hash ann with_ann ann_user (codes "users")
create_user-Created_example =
    create_user-Created hash 6 filled ann with_ann ann_user (codes "users")
      (perform_all-IsValid migrated calls migrated-IsValid) ann_made

abbrev promoted : UserInput
promoted = input [] [] (codes "admins" ∷ [])

abbrev admins_group : Group
admins_group = record { id = 1; name = codes "admins"; description = []; member_uids = [] }

abbrev bob_user : User
bob_user = record {
  id = 1;
  username = codes "bob";
  password_hash = codes "h:pw";
  display_name = codes "bob";
  disabled = false;
  created_at = 5;
  updated_at = 8;
  groups = admins_group ∷ [];
}

abbrev with_admin : Tables
with_admin = (update_user hash 8 filled 1 promoted).0

bob_promoted : update_user hash 8 filled 1 promoted ≡ (with_admin, ok bob_user)
unfolding perform_all create_user create_user_tx insert_user assign_groups insert_membership
    get_user_by_id user_with_id scan_user user_groups groups_of group_with_name trim_space trim_left
    trim_right is_space to_lower lower beq create_group insert_group update_user update_user_tx
    updated_hash updated_display update_user_row delete_memberships unique_names display_or_username
bob_promoted = refl

update_user-Updated_example : Updated hash filled 1 promoted bob_user (codes "users")
update_user-Updated_example =
    update_user-Updated hash 8 filled 1 promoted with_admin bob_user (codes "users")
      (perform_all-IsValid migrated calls migrated-IsValid) bob_promoted

update_user-others_example : get_user_by_id with_admin 2 ≡ get_user_by_id filled 2
update_user-others_example =
    update_user-others hash 8 filled 1 promoted with_admin bob_user 2 bob_promoted (ground arith)

abbrev settled : Tables
settled = (ensure_base_dn migrated (codes "DC=Home, DC=Arpa")).0

home : ensure_base_dn migrated (codes "DC=Home, DC=Arpa") ≡ (settled, ok (codes "dc=Home,dc=Arpa"))
unfolding ensure_base_dn insert_fallback normalized read_base_dn insert_base_dn trim_space trim_left
    trim_right is_space beq normalize_base_dn normalize_part split cut join equal_fold to_lower
    lower
home = refl

ensure_base_dn_once_run :
    (read_base_dn settled ≡ ok (codes "dc=Home,dc=Arpa"))
    × (ensure_base_dn settled (codes "dc=other") ≡ (settled, ok (codes "dc=Home,dc=Arpa")))
ensure_base_dn_once_run =
    ensure_base_dn_once migrated (codes "DC=Home, DC=Arpa") (codes "dc=other") settled
      (codes "dc=Home,dc=Arpa") home

-- The defaults are created on an empty store.
seeded : (seed_defaults hash 1 migrated).1 ≡ ok tt
unfolding seed_defaults create_groups create_users create_user create_user_tx insert_user
    assign_groups insert_membership get_user_by_id user_with_id scan_user user_groups groups_of
    group_with_name trim_space trim_left trim_right is_space to_lower lower beq create_group
    insert_group unique_names display_or_username get_group_by_id group_with_id
seeded = refl

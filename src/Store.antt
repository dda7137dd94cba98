-- ===== src/Store.antt =====
-- The store: internal/store/store.go over its tables. A transaction works on a copy of the tables,
-- and an error leaves the tables as they were. `HashPassword` and `VerifyPassword` are arguments.
pub mod Seed
pub mod Integrity
pub mod Reads
pub mod Assign
pub mod Total
pub mod Users
pub mod Creation
pub mod BaseDn
pub mod Frame
pub mod Login
use nano_ldap.Prelude.{
  ℕ, ◌+◌, Bool, true, false, not, ◌&&◌, ◌||◌, List, [], ◌∷◌, map, ◌==◌, if◌then◌else◌, Option, none,
  some, Result, ok, err, ◌>>=◌,
}
use nano_ldap.Text.{Bytes, codes, is_empty, trim_space}
use nano_ldap.Directory.{BaseDnError, normalize_base_dn}
use nano_ldap.Entry.{User, Group}
use nano_ldap.Accounts.{UserInput, GroupInput, unique_names, display_or_username}
use nano_ldap.Sql.{
  UserRow, GroupRow, Tables, count_users, user_with_id, user_with_name, group_with_id,
  group_with_name, insert_user, update_user_row, delete_user_row, delete_memberships,
  insert_membership, insert_group, update_group_row, delete_group_row, groups_of, members_of,
  all_users, all_groups, insert_base_dn, upsert_base_dn,
}

pub data StoreError : Type 0 where
  required no_rows constraint unknown_group hash_failed : StoreError
  bad_base_dn : BaseDnError → StoreError

abbrev pub Stored : Type 0 → Type 0
Stored A = Result StoreError A

abbrev pub or_error : {A : Type 0} → StoreError → Option A → Stored A
or_error e none = err e
or_error e (some a) = ok a

abbrev pub is_blank : Bytes → Bool
is_blank s = is_empty (trim_space s)

-- `boolInt`.
abbrev pub bool_int : Bool → ℕ
bool_int value = if value then 1 else 0

abbrev pub group_of_row : GroupRow → Group
group_of_row g = record { id = g.id; name = g.name; description = g.description; member_uids = [] }

-- `userGroups`.
unfoldable pub user_groups : Tables → ℕ → List Group
user_groups t id = map group_of_row (groups_of t id)

-- `scanUser`, and the body of the loops of `ListUsers`.
unfoldable pub scan_user : Tables → UserRow → User
scan_user t r = record {
  id = r.id;
  username = r.username;
  password_hash = r.password_hash;
  display_name = r.display_name;
  disabled = r.disabled == 1;
  created_at = r.created_at;
  updated_at = r.updated_at;
  groups = user_groups t r.id;
}

-- `scanGroup`, with `groupMembers`.
unfoldable pub scan_group : Tables → GroupRow → Group
scan_group t g = record {
  id = g.id;
  name = g.name;
  description = g.description;
  member_uids = members_of t g.id;
}

abbrev pub scanned_user : Tables → Option UserRow → Stored User
scanned_user t none = err no_rows
scanned_user t (some r) = ok (scan_user t r)

abbrev pub scanned_group : Tables → Option GroupRow → Stored Group
scanned_group t none = err no_rows
scanned_group t (some g) = ok (scan_group t g)

unfoldable pub get_user_by_username : Tables → Bytes → Stored User
get_user_by_username t name = scanned_user t (user_with_name t name)

unfoldable pub get_user_by_id : Tables → ℕ → Stored User
get_user_by_id t id = scanned_user t (user_with_id t id)

unfoldable pub get_group_by_name : Tables → Bytes → Stored Group
get_group_by_name t name = scanned_group t (group_with_name t name)

unfoldable pub get_group_by_id : Tables → ℕ → Stored Group
get_group_by_id t id = scanned_group t (group_with_id t id)

unfoldable pub list_users : Tables → List User
list_users t = map (scan_user t) (all_users t)

unfoldable pub list_groups : Tables → List Group
list_groups t = map (scan_group t) (all_groups t)

-- `AuthenticateUser`; `verify` is `none` on an error.
unfoldable pub authenticate_user :
    (Bytes → Bytes → Option Bool) → Tables → Bytes → Bytes → Stored User
authenticate_user verify t username password = do
  user ← get_user_by_username t username
  same ← or_error hash_failed (verify user.password_hash password)
  if same then ok user else err no_rows

-- `assignGroupsTx`, on the names that `uniqueNames` leaves.
unfoldable pub assign_groups : Tables → ℕ → List Bytes → Stored Tables
assign_groups t id [] = ok t
assign_groups t id (name ∷ names) = do
  g ← or_error unknown_group (group_with_name t name)
  t' ← or_error constraint (insert_membership t id g.id)
  assign_groups t' id names

-- The transaction of `CreateUser`.
unfoldable pub create_user_tx : Tables → ℕ → Bytes → UserInput → Stored (Tables × ℕ)
create_user_tx t now hash input = do
  (t₁, id) ← or_error constraint (
      insert_user t (trim_space input.username) hash
        (display_or_username input.display_name input.username) (bool_int input.disabled) now)
  t₂ ← assign_groups t₁ id (unique_names input.group_names)
  ok (t₂, id)

-- `tx.Commit` and the read behind it, or `tx.Rollback`.
abbrev pub committed : Tables → Stored (Tables × ℕ) → Tables × Stored User
committed t (err e) = (t, err e)
committed t (ok (t', id)) = (t', get_user_by_id t' id)

-- `CreateUser`; `hash` is `HashPassword` with the salt that it draws.
unfoldable pub create_user : (Bytes → Option Bytes) → ℕ → Tables → UserInput → Tables × Stored User
create_user hash now t input =
    if is_blank input.username || is_blank input.password
    then (t, err required)
    else elim (hash input.password) [
      | none ↦ (t, err hash_failed)
      | some h ↦ committed t (create_user_tx t now h input)
    ]

-- The hash that `UpdateUser` writes: the old one where no password is given.
unfoldable pub updated_hash : (Bytes → Option Bytes) → Bytes → Bytes → Stored Bytes
updated_hash hash old password =
    if is_blank password then ok old else or_error hash_failed (hash password)

unfoldable pub updated_display : Bytes → Bytes → Bytes
updated_display old display_name = if is_blank display_name then old else trim_space display_name

-- The transaction of `UpdateUser`.
unfoldable pub update_user_tx :
    (Bytes → Option Bytes) → ℕ → Tables → ℕ → UserInput → Stored (Tables × ℕ)
update_user_tx hash now t id input = do
  current ← or_error no_rows (user_with_id t id)
  h ← updated_hash hash current.password_hash input.password
  let t₁ =
      update_user_row t id (updated_display current.display_name input.display_name) h
        (bool_int input.disabled) now
  t₂ ← assign_groups (delete_memberships t₁ id) id (unique_names input.group_names)
  ok (t₂, id)

unfoldable pub update_user :
    (Bytes → Option Bytes) → ℕ → Tables → ℕ → UserInput → Tables × Stored User
update_user hash now t id input = committed t (update_user_tx hash now t id input)

unfoldable pub delete_user : Tables → ℕ → Tables
delete_user t id = delete_user_row t id

abbrev pub inserted_group : Tables → Option (Tables × ℕ) → Tables × Stored Group
inserted_group t none = (t, err constraint)
inserted_group t (some (t', id)) = (t', get_group_by_id t' id)

unfoldable pub create_group : Tables → GroupInput → Tables × Stored Group
create_group t input =
    if is_blank input.name
    then (t, err required)
    else inserted_group t (insert_group t (trim_space input.name) (trim_space input.description))

abbrev pub updated_group : Tables → ℕ → Option Tables → Tables × Stored Group
updated_group t id none = (t, err constraint)
updated_group t id (some t') = (t', get_group_by_id t' id)

unfoldable pub update_group : Tables → ℕ → GroupInput → Tables × Stored Group
update_group t id input =
    if is_blank input.name
    then (t, err required)
    else updated_group t id
        (update_group_row t id (trim_space input.name) (trim_space input.description))

unfoldable pub delete_group : Tables → ℕ → Tables
delete_group t id = delete_group_row t id

-- `NormalizeBaseDN`, with its error as one of the store's.
unfoldable pub normalized : Bytes → Stored Bytes
normalized s = elim (normalize_base_dn s) [ ok n ↦ ok n | err e ↦ err (bad_base_dn e) ]

-- `BaseDN`.
unfoldable pub read_base_dn : Tables → Stored Bytes
read_base_dn t = elim t.base_dn [ none ↦ err no_rows | some value ↦ normalized value ]

unfoldable pub set_base_dn : Tables → Bytes → Tables × Stored (Unit {0})
set_base_dn t s = elim (normalized s) [ err e ↦ (t, err e) | ok n ↦ (upsert_base_dn t n, ok tt) ]

-- `EnsureBaseDN` where `BaseDN` found no row.
unfoldable pub insert_fallback : Tables → Bytes → Tables × Stored Bytes
insert_fallback t fallback = elim (normalized fallback) [
  | err e ↦ (t, err e)
  | ok n ↦ (insert_base_dn t n, read_base_dn (insert_base_dn t n))
]

unfoldable pub ensure_base_dn : Tables → Bytes → Tables × Stored Bytes
ensure_base_dn t fallback = elim (read_base_dn t) [
  | ok current ↦ (t, ok current)
  | err no_rows ↦ insert_fallback t fallback
  | err required ↦ (t, err required)
  | err constraint ↦ (t, err constraint)
  | err unknown_group ↦ (t, err unknown_group)
  | err hash_failed ↦ (t, err hash_failed)
  | err (bad_base_dn e) ↦ (t, err (bad_base_dn e))
]

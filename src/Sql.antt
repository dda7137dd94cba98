-- ===== src/Sql.antt =====
-- The tables that internal/store/store.go creates, and its SQL statements as functions of them. A
-- statement that violates a constraint is `none` and changes nothing. Columns that the schema
-- declares UNIQUE or PRIMARY KEY are compared byte by byte, SQLite's BINARY collation. Failures of
-- the database file are not part of the model.
pub mod Rows
pub mod Valid
pub mod Changes
use nano_ldap.Prelude.{
  ℕ, suc, ◌+◌, Bool, true, false, not, ◌&&◌, ◌||◌, List, [], ◌∷◌, ◌++◌, map, keep, any, ltb, ◌==◌,
  if◌then◌else◌, Option, none, some, length,
}
use nano_ldap.Text.{Bytes, beq}

-- `disabled` is the INTEGER column; the times are the instants that their texts stand for.
pub record UserRow : Type 0 where
  pub id : ℕ
  pub username : Bytes
  pub password_hash : Bytes
  pub display_name : Bytes
  pub disabled : ℕ
  pub created_at : ℕ
  pub updated_at : ℕ

pub record GroupRow : Type 0 where
  pub id : ℕ
  pub name : Bytes
  pub description : Bytes

pub record Membership : Type 0 where
  pub user_id : ℕ
  pub group_id : ℕ

-- `settings` has one key, `base_dn`. The sequences are those of AUTOINCREMENT.
pub record Tables : Type 0 where
  pub users : List UserRow
  pub groups : List GroupRow
  pub user_groups : List Membership
  pub base_dn : Option Bytes
  pub next_user : ℕ
  pub next_group : ℕ

-- `Migrate` on an empty file.
abbrev pub migrated : Tables
migrated = record {
  users = [];
  groups = [];
  user_groups = [];
  base_dn = none;
  next_user = 1;
  next_group = 1;
}

-- The first row that passes a test, which `QueryRowContext` scans.
abbrev pub first {ℓ} : {A : Type ℓ} → (A → Bool) → List A → Option A
first p [] = none
first p (x ∷ xs) = let rest = first p xs in if p x then some x else rest

abbrev pub has_id : ℕ → UserRow → Bool
has_id id r = r.id == id

abbrev pub has_username : Bytes → UserRow → Bool
has_username name r = beq r.username name

abbrev pub group_has_id : ℕ → GroupRow → Bool
group_has_id id g = g.id == id

abbrev pub has_name : Bytes → GroupRow → Bool
has_name name g = beq g.name name

abbrev pub is_membership : ℕ → ℕ → Membership → Bool
is_membership u g m = m.user_id == u && m.group_id == g

abbrev pub count_users : Tables → ℕ
count_users t = length t.users

unfoldable pub user_with_id : Tables → ℕ → Option UserRow
user_with_id t id = first (has_id id) t.users

unfoldable pub user_with_name : Tables → Bytes → Option UserRow
user_with_name t name = first (has_username name) t.users

unfoldable pub group_with_id : Tables → ℕ → Option GroupRow
group_with_id t id = first (group_has_id id) t.groups

unfoldable pub group_with_name : Tables → Bytes → Option GroupRow
group_with_name t name = first (has_name name) t.groups

abbrev pub new_user : ℕ → Bytes → Bytes → Bytes → ℕ → ℕ → UserRow
new_user id username password_hash display_name disabled now = record {
  id = id;
  username = username;
  password_hash = password_hash;
  display_name = display_name;
  disabled = disabled;
  created_at = now;
  updated_at = now;
}

abbrev pub add_user : Tables → UserRow → Tables
add_user t r = record t { users = t.users ++ r ∷ []; next_user = t.next_user + 1 }

-- `INSERT INTO users …`, with `LastInsertId`.
unfoldable pub insert_user : Tables → Bytes → Bytes → Bytes → ℕ → ℕ → Option (Tables × ℕ)
insert_user t username password_hash display_name disabled now =
    if any (has_username username) t.users
    then none
    else some (
      add_user t (new_user t.next_user username password_hash display_name disabled now),
      t.next_user,
    )

-- `UPDATE users SET … WHERE id = ?` at one row.
abbrev pub set_user : ℕ → Bytes → Bytes → ℕ → ℕ → UserRow → UserRow
set_user id display_name password_hash disabled now r = record {
  id = r.id;
  username = r.username;
  password_hash = if r.id == id then password_hash else r.password_hash;
  display_name = if r.id == id then display_name else r.display_name;
  disabled = if r.id == id then disabled else r.disabled;
  created_at = r.created_at;
  updated_at = if r.id == id then now else r.updated_at;
}

unfoldable pub update_user_row : Tables → ℕ → Bytes → Bytes → ℕ → ℕ → Tables
update_user_row t id display_name password_hash disabled now = record t {
  users = map (set_user id display_name password_hash disabled now) t.users;
}

-- `DELETE FROM users WHERE id = ?`, with ON DELETE CASCADE.
unfoldable pub delete_user_row : Tables → ℕ → Tables
delete_user_row t id = record t {
  users = keep (λ r. not (has_id id r)) t.users;
  user_groups = keep (λ m. not (m.user_id == id)) t.user_groups;
}

-- `DELETE FROM user_groups WHERE user_id = ?`.
unfoldable pub delete_memberships : Tables → ℕ → Tables
delete_memberships t id = record t { user_groups = keep (λ m. not (m.user_id == id)) t.user_groups }

abbrev pub add_membership : Tables → Membership → Tables
add_membership t m = record t { user_groups = t.user_groups ++ m ∷ [] }

-- `INSERT INTO user_groups …`: the primary key and the two foreign keys.
unfoldable pub insert_membership : Tables → ℕ → ℕ → Option Tables
insert_membership t u g =
    if any (is_membership u g) t.user_groups
      || (not (any (has_id u) t.users) || not (any (group_has_id g) t.groups))
    then none
    else some (add_membership t (record { user_id = u; group_id = g }))

abbrev pub add_group : Tables → GroupRow → Tables
add_group t g = record t { groups = t.groups ++ g ∷ []; next_group = t.next_group + 1 }

-- `INSERT INTO groups …`, with `LastInsertId`.
unfoldable pub insert_group : Tables → Bytes → Bytes → Option (Tables × ℕ)
insert_group t name description =
    if any (has_name name) t.groups
    then none
    else some (
      add_group t (record { id = t.next_group; name = name; description = description }),
      t.next_group,
    )

abbrev pub set_group : ℕ → Bytes → Bytes → GroupRow → GroupRow
set_group id name description g = record {
  id = g.id;
  name = if g.id == id then name else g.name;
  description = if g.id == id then description else g.description;
}

-- Another group has the name, and there is a row that the statement renames.
abbrev pub name_is_taken : Tables → ℕ → Bytes → Bool
name_is_taken t id name =
    any (group_has_id id) t.groups && any (λ g. has_name name g && not (group_has_id id g)) t.groups

-- `UPDATE groups SET name = ?, description = ? WHERE id = ?`.
unfoldable pub update_group_row : Tables → ℕ → Bytes → Bytes → Option Tables
update_group_row t id name description =
    if name_is_taken t id name
    then none
    else some (record t { groups = map (set_group id name description) t.groups })

-- `DELETE FROM groups WHERE id = ?`, with ON DELETE CASCADE.
unfoldable pub delete_group_row : Tables → ℕ → Tables
delete_group_row t id = record t {
  groups = keep (λ g. not (group_has_id id g)) t.groups;
  user_groups = keep (λ m. not (m.group_id == id)) t.user_groups;
}

-- The order of ORDER BY: bytewise, a prefix before what it begins.
abbrev pub text_le : Bytes → Bytes → Bool
text_le [] t = true
text_le (x ∷ s) [] = false
text_le (x ∷ s) (y ∷ t) = let rest = text_le s t in ltb x y || (x == y && rest)

module _ {A : Type 0} (key : A → Bytes) where
  abbrev pub insert_by : A → List A → List A
  insert_by x [] = x ∷ []
  insert_by x (y ∷ ys) =
      let rest = insert_by x ys in if text_le (key x) (key y) then x ∷ y ∷ ys else y ∷ rest

  abbrev pub order_by : List A → List A
  order_by [] = []
  order_by (x ∷ xs) = insert_by x (order_by xs)

-- `SELECT g.id, g.name, g.description FROM groups g INNER JOIN user_groups …`.
unfoldable pub groups_of : Tables → ℕ → List GroupRow
groups_of t u =
    order_by (λ (g : GroupRow). g.name)
      (keep (λ (g : GroupRow). any (is_membership u g.id) t.user_groups) t.groups)

-- `SELECT u.username FROM users u INNER JOIN user_groups …`.
unfoldable pub members_of : Tables → ℕ → List Bytes
members_of t g =
    map (λ (r : UserRow). r.username)
      (order_by (λ (r : UserRow). r.username)
        (keep (λ (r : UserRow). any (is_membership r.id g) t.user_groups) t.users))

unfoldable pub all_users : Tables → List UserRow
all_users t = order_by (λ (r : UserRow). r.username) t.users

unfoldable pub all_groups : Tables → List GroupRow
all_groups t = order_by (λ (g : GroupRow). g.name) t.groups

abbrev pub or_insert : Tables → Bytes → Option Bytes → Tables
or_insert t value none = record t { base_dn = some value }
or_insert t value (some old) = t

-- `INSERT INTO settings … ON CONFLICT(key) DO NOTHING`, and `… DO UPDATE`.
unfoldable pub insert_base_dn : Tables → Bytes → Tables
insert_base_dn t value = or_insert t value t.base_dn

unfoldable pub upsert_base_dn : Tables → Bytes → Tables
upsert_base_dn t value = record t { base_dn = some value }

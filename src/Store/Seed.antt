-- ===== src/Store/Seed.antt =====
-- `SeedDefaults` of internal/store/store.go.
use nano_ldap.Prelude.{ℕ, false, List, [], ◌∷◌, ◌==◌, if◌then◌else◌, Option, ok, err, not}
use nano_ldap.Text.{Bytes, codes}
use nano_ldap.Accounts.{UserInput, GroupInput}
use nano_ldap.Sql.{Tables, count_users}
use nano_ldap.Store.{Stored, create_user, create_group}

abbrev group_input : Bytes → Bytes → GroupInput
group_input name description = record { name = name; description = description }

abbrev pub default_groups : List GroupInput
default_groups =
    group_input (codes "admins") (codes "Administrative users")
    ∷ group_input (codes "mvradmins") (codes "Privileged LDAP service accounts")
    ∷ group_input (codes "users") (codes "Standard users")
    ∷ group_input (codes "guests") (codes "Guest users")
    ∷ []

abbrev user_input : Bytes → Bytes → Bytes → UserInput
user_input name display_name group = record {
  username = name;
  password = name;
  display_name = display_name;
  disabled = false;
  group_names = group ∷ [];
}

-- Each default user has its name for a password.
abbrev pub default_users : List UserInput
default_users =
    user_input (codes "admin") (codes "Administrator") (codes "admins")
    ∷ user_input (codes "mvradmin") (codes "MVR Administrator") (codes "mvradmins")
    ∷ user_input (codes "user") (codes "Standard User") (codes "users")
    ∷ user_input (codes "guest") (codes "Guest User") (codes "guests")
    ∷ []

-- The loops stop at the first error, and keep what was created before it.
unfoldable pub create_groups : Tables → List GroupInput → Tables × Stored (Unit {0})
create_groups t [] = (t, ok tt)
create_groups t (input ∷ inputs) =
    let (t', made) = create_group t input in
    elim made [ err e ↦ (t', err e) | ok _ ↦ create_groups t' inputs ]

unfoldable pub create_users :
    (Bytes → Option Bytes) → ℕ → Tables → List UserInput → Tables × Stored (Unit {0})
create_users hash now t [] = (t, ok tt)
create_users hash now t (input ∷ inputs) =
    let (t', made) = create_user hash now t input in
    elim made [ err e ↦ (t', err e) | ok _ ↦ create_users hash now t' inputs ]

abbrev pub then_users :
    (Bytes → Option Bytes) → ℕ → Tables × Stored (Unit {0}) → Tables × Stored (Unit {0})
then_users hash now (t, err e) = (t, err e)
then_users hash now (t, ok _) = create_users hash now t default_users

unfoldable pub seed_defaults : (Bytes → Option Bytes) → ℕ → Tables → Tables × Stored (Unit {0})
seed_defaults hash now t =
    if not (count_users t == 0)
    then (t, ok tt)
    else then_users hash now (create_groups t default_groups)

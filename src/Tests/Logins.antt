-- ===== src/Tests/Logins.antt =====
-- The web interface, with one account `admin` and a user `guest` that are in the store.
use nano_ldap.Prelude.{
  map, List, ℕ, ◌+◌, ◌≡◌, ◌≢◌, refl, true, [], ◌∷◌, arith, if◌then◌else◌, Option, none, some, ◌↔◌,
  inl, Bool-cases, inr,
}
use nano_ldap.Text.{
  Bytes, codes, beq, to_lower, lower, equal_fold, trim_space, trim_left, trim_right, is_space,
}
use nano_ldap.Text.Case.{beq_iff}
use nano_ldap.Assoc.{get, put, revise}
use nano_ldap.Entry.{User, is_member_of}
use nano_ldap.Session.{Store, new_store, hex_encode, create, revoke_user, get_session}
use nano_ldap.Session.Invariant.{IsValid, new_store-IsValid, step-IsValid, created}
use nano_ldap.Accounts.{was_seen, unique_names}
use nano_ldap.Accounts.Names.{AreUnique, keys, unique_names-AreUnique}
use nano_ldap.Accounts.{UserInput, GroupInput}
use nano_ldap.Web.{
  Database, WebState, admitted, with_admin_auth, handle_login, revoke_all, handle_update_user,
  handle_update_group,
}
use nano_ldap.Web.Access.{Admission, with_admin_auth-Admission}
use nano_ldap.Web.Login.{LoggedIn, handle_login-LoggedIn, with_admin_auth-handle_login}
use nano_ldap.Web.Revoke.{handle_update_user-revoked, handle_update_group-revoked}
use nano_ldap.Tests.Data.{admin, guest, users_group}

abbrev sessions : Store
sessions = new_store 100 2

abbrev token : Option Bytes
token = some (0 ∷ 171 ∷ [])

abbrev users : Bytes → Option User
users name = if beq name (codes "admin") then some admin else none

abbrev confirm : Bytes → Bytes → Option User
confirm name password = if beq password (codes "admin") then users name else none

users_names : (name : Bytes) (found : User) → users name ≡ some found → found.username ≡ name
users_names name found e = elim (Bool-cases (beq name (codes "admin"))) [
  | inl same ↦ ground (arith, beq_iff name (codes "admin"))
  | inr other ↦ absurd (ground arith)
]

cookie_set :
    (handle_login confirm sessions (some (codes " admin", codes "admin")) 1 token 1).cookie
    ≡ some (codes "00ab")
unfolding handle_login trim_space trim_left trim_right is_space beq is_member_of equal_fold to_lower
    lower create revise hex_encode
cookie_set = refl

abbrev logged_in : Store
logged_in = (create sessions (codes "admin") 1 token 1).0

logged_in-IsValid : IsValid logged_in
logged_in-IsValid =
    step-IsValid sessions (created (codes "admin") 1 token 1) (new_store-IsValid 100 2)

let_in :
    (with_admin_auth users logged_in true (some (codes "00ab")) 5 6).1
    ≡ admitted admin (codes "00ab")
unfolding with_admin_auth get_session create revise put get hex_encode beq is_member_of equal_fold
    to_lower lower
let_in = refl

with_admin_auth-Admission_example :
    ((with_admin_auth users logged_in true (some (codes "00ab")) 5 6).1
      ≡ admitted admin (codes "00ab"))
    ↔ Admission users logged_in (some (codes "00ab")) 5 admin (codes "00ab")
with_admin_auth-Admission_example =
    with_admin_auth-Admission users logged_in true (some (codes "00ab")) 5 6 admin (codes "00ab")
      logged_in-IsValid

handle_login-LoggedIn_example :
    LoggedIn confirm sessions
      (some (codes " admin", codes "admin"))
      1
      token
      1
      (codes "00ab")
      (handle_login confirm sessions (some (codes " admin", codes "admin")) 1 token 1).sessions
handle_login-LoggedIn_example =
    handle_login-LoggedIn confirm sessions (some (codes " admin", codes "admin")) 1 token 1
      (codes "00ab") cookie_set

confirmed : confirm (trim_space (codes " admin")) (codes "admin") ≡ some admin
unfolding trim_space trim_left trim_right is_space beq
confirmed = refl

known : users admin.username ≡ some admin
unfolding beq
known = refl

admin_is_in : is_member_of admin (codes "admins" ∷ []) ≡ true
unfolding is_member_of equal_fold beq to_lower lower
admin_is_in = refl

with_admin_auth-handle_login_example :
    (with_admin_auth users
      (handle_login confirm sessions (some (codes " admin", codes "admin")) 1 token 1).sessions
      true
      (some (codes "00ab"))
      50
      51).1
    ≡ admitted admin (codes "00ab")
with_admin_auth-handle_login_example =
    with_admin_auth-handle_login confirm users sessions (codes " admin") (codes "admin") 1 token 1
      (codes "00ab") admin admin true 50 51 (new_store-IsValid 100 2) cookie_set confirmed known
      refl admin_is_in (omega arith)

-- A store that says that it has changed the user `guest` and the group `users`.
abbrev database : Database ℕ
database = record {
  authenticate_user = λ db. confirm;
  get_user_by_username = λ db. users;
  get_user_by_id = λ db id. some guest;
  update_user = λ db id input. (db + 1, some guest);
  delete_user = λ db id. (db + 1, true);
  get_group_by_id = λ db id. some users_group;
  update_group = λ db id input. (
    db + 1,
    some record {
      id = id;
      name = input.name;
      description = input.description;
      member_uids = codes "guest" ∷ [];
    },
  );
  delete_group = λ db id. (db + 1, true);
}

abbrev state : WebState ℕ
state = record { db = 0; sessions = logged_in }

abbrev user_input : UserInput
user_input = record {
  username = [];
  password = [];
  display_name = [];
  disabled = true;
  group_names = [];
}

abbrev group_input : GroupInput
group_input = record { name = codes "users"; description = [] }

still_in_user :
    (with_admin_auth users
      (handle_update_user database state (some 4) (some user_input)).0.sessions
      true
      (some (codes "00ab"))
      5
      6).1
    ≡ admitted admin (codes "00ab")
unfolding with_admin_auth get_session create revise put get hex_encode beq is_member_of equal_fold
    to_lower lower handle_update_user revoke_user
still_in_user = refl

handle_update_user-revoked_example : admin.username ≢ guest.username
handle_update_user-revoked_example =
    handle_update_user-revoked database state 4 1 user_input guest users true (some (codes "00ab"))
      5 6 admin (codes "00ab") logged_in-IsValid refl users_names still_in_user

still_in_group :
    (with_admin_auth users
      (handle_update_group database state (some 4) (some group_input)).0.sessions
      true
      (some (codes "00ab"))
      5
      6).1
    ≡ admitted admin (codes "00ab")
unfolding with_admin_auth get_session create revise put get hex_encode beq is_member_of equal_fold
    to_lower lower handle_update_group revoke_all revoke_user
still_in_group = refl

handle_update_group-revoked_example : admin.username ≢ codes "guest"
handle_update_group-revoked_example =
    handle_update_group-revoked database state 4 1 group_input
      (record { id = 4; name = codes "users"; description = []; member_uids = codes "guest" ∷ [] })
      (codes "guest") users true (some (codes "00ab")) 5 6 admin (codes "00ab") logged_in-IsValid
      refl (inl refl) users_names still_in_group

-- Blank names go, and names that differ in case come once.
abbrev form_names : List Bytes
form_names = codes " Users" ∷ codes " " ∷ codes "users" ∷ codes "admins " ∷ []

form_names_once : unique_names form_names ≡ codes "Users" ∷ codes "admins" ∷ []
unfolding unique_names trim_space trim_left trim_right is_space to_lower lower beq
form_names_once = refl

unique_names-AreUnique_example :
    AreUnique (unique_names form_names)
    × (was_seen (map to_lower (unique_names form_names)) (codes "users")
        ≡ was_seen (keys form_names) (codes "users"))
unique_names-AreUnique_example = unique_names-AreUnique form_names (codes "users")

-- ===== src/Tests/Sites.antt =====
-- The program from its start on an empty database, and requests to it.
use nano_ldap.Prelude.{◌≡◌, refl, true, false, arith, [], ◌∷◌, ◌++◌, ◌⊎◌, Option, none, some}
use nano_ldap.Text.{
  Bytes, codes, beq, split, cut, join, equal_fold, to_lower, lower, trim_space, trim_left,
  trim_right, is_space,
}
use nano_ldap.Directory.{normalize_base_dn, normalize_part, new_settings}
use nano_ldap.Session.{new_store}
use nano_ldap.Session.Invariant.{new_store-IsValid}
use nano_ldap.Sql.{Tables, migrated, UserRow}
use nano_ldap.Sql.Valid.{IsValid}
use nano_ldap.Store.{read_base_dn, ensure_base_dn, normalized}
use nano_ldap.Store.Seed.{seed_defaults}
use nano_ldap.Config.{Config, load, addr, has_enabled_listener}
use nano_ldap.Site.{Site, Request, Moment, guarded, Action, handle, handle_all}
use nano_ldap.Site.Guarded.{Untouched, IsAdministrator, handle_guarded}
use nano_ldap.App.{new}
use nano_ldap.App.Start.{IsConsistent, handle_all-new}

abbrev hash : Bytes → Option Bytes
hash password = some (codes "h:" ++ password)

-- The environment sets the base DN and the LDAP port.
abbrev getenv : Bytes → Bytes
getenv key = elim (beq key (codes "NANOLDAP_BASE_DN")) [
  | true ↦ codes "DC=home"
  | false ↦ elim (beq key (codes "NANOLDAP_LDAP_PORT")) [ true ↦ codes "389" | false ↦ [] ]
]

abbrev cfg : Config
cfg = load getenv (λ c. c)

listens : has_enabled_listener cfg ≡ true
unfolding has_enabled_listener load beq
listens = refl

ldap_addr : addr cfg cfg.ldap_port ≡ codes "0.0.0.0:389"
unfolding addr load beq
ldap_addr = refl

abbrev empty : Site
empty = record {
  db = migrated;
  sessions = new_store 100 2;
  settings = record { base_dn = codes "dc=home" };
}

abbrev row : UserRow
row = record {
  id = 1;
  username = codes "admin";
  password_hash = codes "h:admin";
  display_name = codes "admin";
  disabled = 0;
  created_at = 1;
  updated_at = 1;
}

-- A database that was used before.
abbrev tables : Tables
tables = record migrated { users = row ∷ []; base_dn = some (codes "dc=old"); next_user = 2 }

tables-IsValid : IsValid tables
tables-IsValid = record {
  user_ids = ground arith;
  usernames = ground arith;
  users_below = (omega arith, tt);
  group_ids = tt;
  names = tt;
  groups_below = tt;
  keys = tt;
  references = tt;
}

abbrev site : Site
site = record {
  db = tables;
  sessions = new_store cfg.session_idle_timeout cfg.session_max;
  settings = record { base_dn = codes "dc=old" };
}

started : new true true hash 1 cfg tables ≡ (tables, some site)
unfolding new seed_defaults ensure_base_dn normalized read_base_dn normalize_base_dn normalize_part
    split cut join equal_fold new_settings trim_space trim_left trim_right is_space beq to_lower
    lower
started = refl

-- A request without a cookie to create a user.
abbrev request : Request
request = record { cookie = none; hx_request = []; id = []; form = some (λ name. codes "eve" ∷ []) }

abbrev moment : Moment
moment = record {
  first = 1;
  now = 1;
  clock = 1;
  token = none;
  hash = hash;
  verify = λ stored password. some true;
}

handle_all-new_example :
    IsConsistent (handle_all site ((moment, guarded Action.creates_user, request) ∷ []))
handle_all-new_example =
    handle_all-new true true hash 1 cfg tables tables site
      ((moment, guarded Action.creates_user, request) ∷ []) tables-IsValid started

handle_guarded_example :
    Untouched empty (handle moment empty (guarded Action.creates_user) request).0
    ⊎ IsAdministrator moment empty (guarded Action.creates_user) request
handle_guarded_example =
    handle_guarded moment empty (guarded Action.creates_user) request (new_store-IsValid 100 2)

-- ===== src/Tests/Data.antt =====
-- The inputs that the tests share.
use nano_ldap.Prelude.{true, false, ◌&&◌, List, [], ◌∷◌, none, some, if◌then◌else◌}
use nano_ldap.Text.{Bytes, codes, beq}
use nano_ldap.Ber.Reader.{Packet, packet, nil, cons}
use nano_ldap.Entry.{User, Group}
use nano_ldap.Filter.{present_filter}
use nano_ldap.Message.{Message, SearchRequest}
use nano_ldap.Connection.{Backend}

abbrev pub base_dn : Bytes
base_dn = codes "dc=example,dc=com"

abbrev pub users_group : Group
users_group = record {
  id = 3;
  name = codes "users";
  description = [];
  member_uids = codes "user" ∷ [];
}

abbrev pub admins_group : Group
admins_group = record {
  id = 1;
  name = codes "admins";
  description = [];
  member_uids = codes "admin" ∷ [];
}

abbrev pub user_named : Bytes → List Group → User
user_named name groups = record {
  id = 1;
  username = name;
  password_hash = [];
  display_name = name;
  disabled = false;
  created_at = 0;
  updated_at = 0;
  groups = groups;
}

abbrev pub admin : User
admin = user_named (codes "admin") (admins_group ∷ [])

abbrev pub user : User
user = user_named (codes "user") (users_group ∷ [])

abbrev pub guest : User
guest = user_named (codes "guest") []

abbrev pub backend : List User → List Group → Backend
backend users groups = record {
  authenticate_user = λ name password.
      if beq name (codes "user") && beq password (codes "user") then some user else none;
  list_users = some users;
  list_groups = some groups;
  visit = λ attrs. attrs;
}

abbrev pub broken : Backend
broken = record {
  authenticate_user = λ name password. none;
  list_users = none;
  list_groups = none;
  visit = λ attrs. attrs;
}

abbrev pub octets : Bytes → Packet
octets s = packet 0 4 false s nil

abbrev pub bind_message : Bytes → Bytes → Message
bind_message dn password = record {
  id = 7;
  op = packet 1 0 true [] (
      cons (packet 0 2 false (3 ∷ []) nil)
        (cons (octets dn) (cons (packet 2 0 false password nil) nil)));
  raw = octets [];
}

abbrev pub find_message : Message
find_message = record { id = 8; op = packet 1 3 true [] nil; raw = octets [] }

abbrev pub everything : SearchRequest
everything = record {
  base_dn = base_dn;
  scope = 2;
  filter = present_filter (codes "objectClass");
  attributes = [];
}

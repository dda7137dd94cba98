-- ===== src/Tests/Passwords.antt =====
-- Password hashes, with a key of 32 equal bytes.
use nano_ldap.Prelude.{
  if◌then◌else◌, err, ℕ, zero, suc, ◌≡◌, refl, false, [], ◌∷◌, length, some, ok, arith,
}
use nano_ldap.Text.{
  Bytes, codes, AreBytes, trim_space, trim_left, trim_right, is_space, strip_prefix, beq, split,
  cut,
}
use nano_ldap.Text.Decimal.{atoi}
use nano_ldap.Text.Base64.{decode}
use nano_ldap.Password.{
  Key, PhcParams, format_phc, hash_password, verify_password, parse_phc, parse_parts, parse_params,
  is_version, set_param,
}
use nano_ldap.Entry.{User}
use nano_ldap.Accounts.{UserInput, unique_names, display_or_username}
use nano_ldap.Sql.{Tables, migrated, insert_user, user_with_id, groups_of}
use nano_ldap.Sql.Valid.{migrated-IsValid}
use nano_ldap.Store.{
  no_rows, create_user, create_user_tx, assign_groups, get_user_by_id, scan_user, user_groups,
  authenticate_user,
}
use nano_ldap.Store.Login.{verifier, authenticate_user-create_user}
use nano_ldap.Password.RoundTrip.{derived, verify_password-hash_password}
use nano_ldap.Password.Shape.{IsPhc, InRange, parse_phc-Shape}

abbrev repeated : ℕ → ℕ → Bytes
repeated b zero = []
repeated b (suc n) = b ∷ repeated b n

abbrev key : Key
key password salt time memory threads n = repeated (length password) n

abbrev salt : Bytes
salt = 1 ∷ 250 ∷ 3 ∷ []

abbrev stored : Bytes
stored = format_phc salt (derived key salt (codes "secret"))

repeated-AreBytes : (n : ℕ) → AreBytes (repeated 6 n)
repeated-AreBytes zero = tt
repeated-AreBytes (suc n) = ground (arith, repeated-AreBytes n)

hashed : hash_password key (some salt) (codes "secret") ≡ some stored
unfolding hash_password
hashed = refl

verify_password-hash_password_example : verify_password key stored (codes "wrong") ≡ ok false
unfolding beq
verify_password-hash_password_example =
    verify_password-hash_password key salt (codes "secret") (codes "wrong") stored (ground arith)
      (repeated-AreBytes 32) refl hashed

abbrev overflowing : Bytes
overflowing = codes "$argon2id$v=19$m=4294967297,t=1,p=260$AQ$Ag"

abbrev narrow : PhcParams
narrow = record { memory = 1; time = 1; threads = 4 }

read_narrow : parse_phc overflowing ≡ ok (narrow, 1 ∷ [], 2 ∷ [])
unfolding parse_phc split parse_parts is_version parse_params set_param cut atoi beq decode
    strip_prefix
read_narrow = refl

parse_phc-Shape_example : IsPhc (split b'$' overflowing) × InRange narrow
parse_phc-Shape_example = parse_phc-Shape overflowing narrow (1 ∷ []) (2 ∷ []) read_narrow

-- A user in an empty store.
abbrev eve : UserInput
eve = record {
  username = codes "eve";
  password = codes "secret";
  display_name = [];
  disabled = false;
  group_names = [];
}

abbrev eve_user : User
eve_user = record {
  id = 1;
  username = codes "eve";
  password_hash = stored;
  display_name = codes "eve";
  disabled = false;
  created_at = 3;
  updated_at = 3;
  groups = [];
}

abbrev with_eve : Tables
with_eve = (create_user (hash_password key (some salt)) 3 migrated eve).0

eve_made : create_user (hash_password key (some salt)) 3 migrated eve ≡ (with_eve, ok eve_user)
unfolding create_user create_user_tx insert_user assign_groups get_user_by_id user_with_id scan_user
    user_groups groups_of trim_space trim_left trim_right is_space beq unique_names
    display_or_username hash_password
eve_made = refl

authenticate_user-create_user_example :
    authenticate_user (verifier key) with_eve (trim_space (codes "eve")) (codes "secret") ≡ (
      if beq (derived key salt (codes "secret")) (derived key salt (codes "secret"))
      then ok eve_user
      else err no_rows)
authenticate_user-create_user_example =
    authenticate_user-create_user key salt 3 migrated with_eve eve eve_user (codes "secret")
      migrated-IsValid (ground arith) (repeated-AreBytes 32) refl eve_made

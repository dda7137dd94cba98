-- ===== src/Store/Login.antt =====
-- A user who was created can log in with the password that he was given, and with no other.
use nano_ldap.Prelude.{ℕ, ◌≡◌, refl, ap, Bool, Option, some, ok, err, length, if◌then◌else◌}
use nano_ldap.Text.{Bytes, AreBytes, beq, trim_space}
use nano_ldap.Entry.{User}
use nano_ldap.Accounts.{UserInput}
use nano_ldap.Message.{to_option}
use nano_ldap.Password.{Key, argon_key_len, hash_password, verify_password}
use nano_ldap.Password.RoundTrip.{derived, verify_password-hash_password}
use nano_ldap.Sql.{Tables}
use nano_ldap.Sql.Valid.{IsValid}
use nano_ldap.Store.{no_rows, get_user_by_username, authenticate_user, create_user}
use nano_ldap.Store.Creation.{create_user-Created}

-- `VerifyPassword`, where an error is `none`.
abbrev pub verifier : Key → Bytes → Bytes → Option Bool
verifier key phc password = to_option (verify_password key phc password)

authenticate_user-found :
    (verify : Bytes → Bytes → Option Bool) (t : Tables) (name password : Bytes) (u : User)
    (same : Bool)
    → get_user_by_username t name ≡ ok u
    → verify u.password_hash password ≡ some same
    → authenticate_user verify t name password ≡ (if same then ok u else err no_rows)
unfolding authenticate_user
authenticate_user-found verify t name password u same e h = rw (e, h) refl

-- In valid tables, with a key function that gives 32 bytes: after `CreateUser` succeeded,
-- `AuthenticateUser` under the trimmed name returns the created user where the key of the attempt,
-- under the stored salt and parameters, is the key of the password, and an error, not a failure to
-- read the hash, where it is another.
pub authenticate_user-create_user :
    (key : Key) (salt : Bytes) (now : ℕ) (t t' : Tables) (input : UserInput) (u : User)
    (attempt : Bytes)
    → IsValid t
    → AreBytes salt
    → AreBytes (derived key salt input.password)
    → length (derived key salt input.password) ≡ argon_key_len
    → create_user (hash_password key (some salt)) now t input ≡ (t', ok u)
    → authenticate_user (verifier key) t' (trim_space input.username) attempt ≡ (
        if beq (derived key salt attempt) (derived key salt input.password)
        then ok u
        else err no_rows)
authenticate_user-create_user key salt now t t' input u attempt v a b n e =
    let made =
      create_user-Created (hash_password key (some salt)) now t input t' u input.username v e in
    authenticate_user-found (verifier key) t' (trim_space input.username) attempt u
      (beq (derived key salt attempt) (derived key salt input.password)) made.stored
      (ap to_option (
        verify_password-hash_password key salt input.password attempt u.password_hash a b n
          made.hashed))

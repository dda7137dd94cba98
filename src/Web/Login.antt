-- ===== src/Web/Login.antt =====
-- What a login leaves.
use mathlib.Core.Path.{subst}
use nano_ldap.Prelude.{
  ℕ, ◌+◌, ◌≤◌, ◌≡◌, refl, Bool, true, false, arith, Option, none, some, Option-cases, Bool-cases,
  inl, inr, ◌∙◌, sym, ap, Result, ok, err,
}
use nano_ldap.Text.{Bytes, trim_space}
use nano_ldap.Assoc.{get}
use nano_ldap.Entry.{User, is_member_of}
use nano_ldap.Session
use nano_ldap.Session.{Session, Store, create}
use nano_ldap.Session.Invariant.{IsValid, step-IsValid, created}
use nano_ldap.Session.Lookup.{create-ok}
use nano_ldap.Web.{admins, admitted, finish_login, login_as, handle_login, with_admin_auth}
use nano_ldap.Web.Access.{with_admin_auth-Admission}

-- The login is that of an enabled administrator whom the store confirmed, and `Create` made the session
-- that the cookie names.
pub record LoggedIn (authenticate : Bytes → Bytes → Option User) (st : Store)
    (form : Option (Bytes × Bytes)) (first : ℕ) (token : Option Bytes) (now : ℕ) (c : Bytes)
    (after : Store) : Type 0 where
  pub username : Bytes
  pub password : Bytes
  pub user : User
  pub session : Session
  pub submitted : form ≡ some (username, password)
  pub confirmed : authenticate (trim_space username) password ≡ some user
  pub enabled : user.disabled ≡ false
  pub admin : is_member_of user admins ≡ true
  pub made : create st user.username first token now ≡ (after, ok session)
  pub same_id : session.id ≡ c

finish_login-cookie :
    (r : Store × Result Session.SessionError Session) (c : Bytes)
    → (finish_login r).cookie ≡ some c
    → (s : Session) × (r ≡ ((finish_login r).sessions, ok s)) × (s.id ≡ c)
unfolding finish_login
finish_login-cookie (st, err Session.session_limit) c e = absurd (ground arith)
finish_login-cookie (st, err Session.random_failed) c e = absurd (ground arith)
finish_login-cookie (st, ok s) c e = (s, refl, ground arith)

login_as-admin :
    (st : Store) (user : User) (first : ℕ) (token : Option Bytes) (now : ℕ)
    → user.disabled ≡ false
    → is_member_of user admins ≡ true
    → login_as st (some user) first token now
      ≡ finish_login (create st user.username first token now)
unfolding login_as
login_as-admin st user first token now on admin = simp (on, admin)

-- A login sets a cookie only for an enabled member of `admins` whose password the store confirmed
-- under the trimmed name, and the cookie is the id of the session that `Create` made for him.
pub handle_login-LoggedIn :
    (authenticate : Bytes → Bytes → Option User) (st : Store) (form : Option (Bytes × Bytes))
    (first : ℕ) (token : Option Bytes) (now : ℕ) (c : Bytes)
    → (handle_login authenticate st form first token now).cookie ≡ some c
    → LoggedIn authenticate st form first token now c
        (handle_login authenticate st form first token now).sessions
unfolding handle_login
handle_login-LoggedIn authenticate st none first token now c e = absurd (ground arith)
handle_login-LoggedIn authenticate st (some (u, p)) first token now c e =
    elim (Option-cases (authenticate (trim_space u) p)) [
      | inl q ↦ absurd (ground arith)
      | inr (user, q) ↦ elim (Bool-cases user.disabled) [
        | inl off ↦ absurd (ground arith)
        | inr on ↦ elim (Bool-cases (is_member_of user admins)) [
          | inl admin ↦
              let done : login_as st (authenticate (trim_space u) p) first token now
                  ≡ finish_login (create st user.username first token now) =
                ap (λ o. login_as st o first token now) q
                ∙ login_as-admin st user first token now on admin in
              let (s, made, ids) =
                finish_login-cookie (create st user.username first token now) c
                  (sym (ap (λ r. r.cookie) done) ∙ e) in
              record {
                username = u;
                password = p;
                user = user;
                session = s;
                submitted = refl;
                confirmed = q;
                enabled = on;
                admin = admin;
                made = made ∙ ap (λ r. (r.sessions, ok s)) (sym done);
                same_id = ids;
              }
          | inr other ↦ absurd (ground arith)
        ]
      ]
    ]

session_admitted :
    (st after : Store) (u : Bytes) (first : ℕ) (token : Option Bytes) (now : ℕ) (s : Session)
    (users : Bytes → Option User) (account : User) (is_get : Bool) (later last : ℕ)
    → IsValid st
    → create st u first token now ≡ (after, ok s)
    → users u ≡ some account
    → account.disabled ≡ false
    → is_member_of account admins ≡ true
    → later ≤ now + st.timeout
    → (with_admin_auth users after is_get (some s.id) later last).1 ≡ admitted account s.id
session_admitted st after u first token now s users account is_get later last v made known on admin
      within =
    let (name, expiry, found, _) = create-ok st u first now token s (ap (λ r. r.1) made) in
    let left : (create st u first token now).0 ≡ after = ap (λ r. r.0) made in
    let v' : IsValid after = subst IsValid left (step-IsValid st (created u first token now) v) in
    (with_admin_auth-Admission users after is_get (some s.id) later last account s.id v').1
      (record {
        session = s;
        presented = refl;
        stored = ap (λ a. get s.id a.sessions) (sym left) ∙ found;
        unexpired = omega arith;
        owner = record {
          account = ap users name ∙ known;
          enabled = on;
          admin = admin;
          same_id = refl;
        };
      })

-- After a login in a valid session store that set a cookie for a confirmed user, a request with the
-- cookie is let in as the account of the user's name, as long as the session has not expired and
-- the account is an enabled member of `admins`.
pub with_admin_auth-handle_login :
    (authenticate : Bytes → Bytes → Option User) (users : Bytes → Option User) (st : Store)
    (username password : Bytes) (first : ℕ) (token : Option Bytes) (now : ℕ) (c : Bytes)
    (user account : User) (is_get : Bool) (later last : ℕ)
    → IsValid st
    → (handle_login authenticate st (some (username, password)) first token now).cookie ≡ some c
    → authenticate (trim_space username) password ≡ some user
    → users user.username ≡ some account
    → account.disabled ≡ false
    → is_member_of account admins ≡ true
    → later ≤ now + st.timeout
    → (with_admin_auth users
        (handle_login authenticate st (some (username, password)) first token now).sessions
        is_get
        (some c)
        later
        last).1
      ≡ admitted account c
with_admin_auth-handle_login authenticate users st username password first token now c user account
      is_get later last v e confirmed known on admin within =
    let l = handle_login-LoggedIn authenticate st (some (username, password)) first token now c e in
    let same : l.user ≡ user = ground (arith, l.submitted, l.confirmed) in
    subst
      (λ k.
        (with_admin_auth users
          (handle_login authenticate st (some (username, password)) first token now).sessions is_get
          (some k) later last).1
        ≡ admitted account k)
      l.same_id
      (session_admitted st _ l.user.username first token now l.session users account is_get later
        last v l.made (ap (λ x. users x.username) same ∙ known) on admin within)

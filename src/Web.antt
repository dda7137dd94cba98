-- ===== src/Web.antt =====
-- Who may use the web interface: `handleLogin`, `handleLogout`, `currentUser`, `withAdminAuth` and the
-- handlers that change users and groups, of internal/web/server.go. A handler is one step: it reads
-- the clock once before and once behind the lock of the session store.
pub mod Access
pub mod Login
pub mod Revoke
use nano_ldap.Prelude.{
  ℕ, Bool, true, false, not, ◌||◌, List, [], ◌∷◌, if◌then◌else◌, Option, none, some, Result, ok,
  err,
}
use nano_ldap.Text.{Bytes, codes, trim_space}
use nano_ldap.Entry.{User, Group, is_member_of}
use nano_ldap.Accounts.{UserInput, GroupInput}
use nano_ldap.Session
use nano_ldap.Session.{Store, create, get_session, delete_session, revoke_user}

-- What the handlers ask of internal/store, whose state is `D`. A Go error is `none` or `false`.
pub record Database (D : Type 0) : Type 0 where
  pub authenticate_user : D → Bytes → Bytes → Option User
  pub get_user_by_username : D → Bytes → Option User
  pub get_user_by_id : D → ℕ → Option User
  pub update_user : D → ℕ → UserInput → D × Option User
  pub delete_user : D → ℕ → D × Bool
  pub get_group_by_id : D → ℕ → Option Group
  pub update_group : D → ℕ → GroupInput → D × Option Group
  pub delete_group : D → ℕ → D × Bool

pub record WebState (D : Type 0) : Type 0 where
  pub db : D
  pub sessions : Store

-- What a handler answers: `http.Error`, a page or panel with its status, a redirect. The contents of
-- the pages, and what fails while they are rendered, are left out.
pub data WebReply : Type 0 where
  http_error login_page panel panel_error : ℕ → WebReply
  redirect : Bytes → WebReply

abbrev pub admins : List Bytes
admins = codes "admins" ∷ []

-- `currentUser` behind `sessions.Get`.
unfoldable pub user_of_session :
    (Bytes → Option User) → Store → Option Session.Session → Store × Option (User × Bytes)
user_of_session users st none = (st, none)
user_of_session users st (some sess) = elim (users sess.username) [
  | none ↦ (revoke_user st sess.username, none)
  | some user ↦
      if user.disabled then (revoke_user st sess.username, none) else (st, some (user, sess.id))
]

-- `currentUser`; the cookie is `none` where the request has none.
unfoldable pub current_user :
    (Bytes → Option User) → Store → Option Bytes → ℕ → ℕ → Store × Option (User × Bytes)
unfolding user_of_session
current_user users st none first now = (st, none)
current_user users st (some cookie) first now =
    let (st', found) = get_session st cookie first now in user_of_session users st' found

-- The decision of `withAdminAuth`: the next handler runs for a user, with the cookie that is set, or
-- the cookie is cleared and the request is answered.
pub data Gate : Type 0 where
  admitted : User → Bytes → Gate
  rejected : WebReply → Gate

abbrev pub gate_of : Bool → Option (User × Bytes) → Gate
gate_of is_get none = rejected (if is_get then redirect (codes "/login") else http_error 403)
gate_of is_get (some (user, id)) =
    if not (is_member_of user admins)
    then rejected (if is_get then redirect (codes "/login") else http_error 403)
    else admitted user id

unfoldable pub with_admin_auth :
    (Bytes → Option User) → Store → Bool → Option Bytes → ℕ → ℕ → Store × Gate
unfolding current_user
with_admin_auth users st is_get cookie first now =
    let (st', user) = current_user users st cookie first now in (st', gate_of is_get user)

-- What `handleLogin` leaves: the sessions, the word for the audit log, the cookie and the answer.
pub record LoginReply : Type 0 where
  pub sessions : Store
  pub audit : Option Bytes
  pub cookie : Option Bytes
  pub reply : WebReply

abbrev pub refuse_login : Store → Bytes → ℕ → LoginReply
refuse_login st word status = record {
  sessions = st;
  audit = some word;
  cookie = none;
  reply = login_page status;
}

-- `handleLogin` behind `sessions.Create`.
unfoldable pub finish_login : Store × Result Session.SessionError Session.Session → LoginReply
finish_login (st, err Session.session_limit) = refuse_login st (codes "session_limit") 429
finish_login (st, err Session.random_failed) = record {
  sessions = st;
  audit = none;
  cookie = none;
  reply = http_error 500;
}
finish_login (st, ok sess) = record {
  sessions = st;
  audit = some (codes "success");
  cookie = some sess.id;
  reply = redirect (codes "/users");
}

-- `handleLogin` behind `AuthenticateUser`.
unfoldable pub login_as : Store → Option User → ℕ → Option Bytes → ℕ → LoginReply
unfolding finish_login
login_as st none first token now = refuse_login st (codes "invalid_credentials") 401
login_as st (some user) first token now =
    if user.disabled
    then refuse_login st (codes "user_disabled") 403
    else if not (is_member_of user admins)
    then refuse_login st (codes "forbidden") 403
    else finish_login (create st user.username first token now)

-- `handleLogin`; the form is `none` where it does not parse.
unfoldable pub handle_login :
    (Bytes → Bytes → Option User)
    → Store
    → Option (Bytes × Bytes)
    → ℕ
    → Option Bytes
    → ℕ
    → LoginReply
unfolding login_as
handle_login authenticate st none first token now = record {
  sessions = st;
  audit = none;
  cookie = none;
  reply = http_error 400;
}
handle_login authenticate st (some (username, password)) first token now =
    login_as st (authenticate (trim_space username) password) first token now

-- `handleLogout`.
unfoldable pub handle_logout : Store → Option Bytes → Store
handle_logout st none = st
handle_logout st (some cookie) = delete_session st cookie

-- The loops over the members of a group.
unfoldable pub revoke_all : Store → List Bytes → Store
revoke_all st [] = st
revoke_all st (u ∷ us) = revoke_all (revoke_user st u) us

module _ {D : Type 0} (api : Database D) where
  abbrev pub saved_user : WebState D → D × Option User → WebState D × WebReply
  saved_user st (db, none) = (record st { db = db }, panel_error 400)
  saved_user st (db, some updated) =
      (record { db = db; sessions = revoke_user st.sessions updated.username }, panel 200)

  -- The id and the form are `none` where they do not parse. An id is the 64-bit pattern of the int64
  -- that `strconv.ParseInt` returns: a negative one, which no row has, stands at 2 ^ 63 and above.
  unfoldable pub handle_update_user :
      WebState D → Option ℕ → Option UserInput → WebState D × WebReply
  handle_update_user st none form = (st, http_error 400)
  handle_update_user st (some id) none = (st, http_error 400)
  handle_update_user st (some id) (some input) = saved_user st (api.update_user st.db id input)

  abbrev pub deleted_row : Store → D × Bool → WebState D × WebReply
  deleted_row sessions (db, true) = (record { db = db; sessions = sessions }, panel 200)
  deleted_row sessions (db, false) = (record { db = db; sessions = sessions }, panel_error 400)

  abbrev revoke_found : Store → Option User → Store
  revoke_found sessions none = sessions
  revoke_found sessions (some user) = revoke_user sessions user.username

  unfoldable pub handle_delete_user : WebState D → Option ℕ → WebState D × WebReply
  handle_delete_user st none = (st, http_error 400)
  handle_delete_user st (some id) =
      deleted_row (revoke_found st.sessions (api.get_user_by_id st.db id))
        (api.delete_user st.db id)

  abbrev pub saved_group : WebState D → D × Option Group → WebState D × WebReply
  saved_group st (db, none) = (record st { db = db }, panel_error 400)
  saved_group st (db, some updated) =
      (record { db = db; sessions = revoke_all st.sessions updated.member_uids }, panel 200)

  unfoldable pub handle_update_group :
      WebState D → Option ℕ → Option GroupInput → WebState D × WebReply
  handle_update_group st none form = (st, http_error 400)
  handle_update_group st (some id) none = (st, http_error 400)
  handle_update_group st (some id) (some input) = saved_group st (api.update_group st.db id input)

  abbrev revoke_members : Store → Option Group → Store
  revoke_members sessions none = sessions
  revoke_members sessions (some group) = revoke_all sessions group.member_uids

  unfoldable pub handle_delete_group : WebState D → Option ℕ → WebState D × WebReply
  handle_delete_group st none = (st, http_error 400)
  handle_delete_group st (some id) =
      deleted_row (revoke_members st.sessions (api.get_group_by_id st.db id))
        (api.delete_group st.db id)

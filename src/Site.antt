-- ===== src/Site.antt =====
-- The web server over the store: the routes of `SecureMux`, the handlers that only create or show,
-- `handleUpdateBaseDN`, and the panels, of internal/web/server.go.
pub mod Guarded
pub mod Agreement
pub mod Integrity
use nano_ldap.Prelude.{
  ℕ, Bool, true, false, List, [], ◌∷◌, if◌then◌else◌, Option, none, some, Result, ok, err,
}
use nano_ldap.Text.{Bytes, codes, beq, equal_fold, to_lower, trim_space}
use nano_ldap.Text.Decimal.{atoi}
use nano_ldap.Directory.{BaseDnError, Settings, normalize_base_dn}
use nano_ldap.Directory
use nano_ldap.Entry.{User, Group}
use nano_ldap.Accounts.{UserInput, GroupInput}
use nano_ldap.Session
use nano_ldap.Sql.{Tables}
use nano_ldap.Store
use nano_ldap.Store.{
  Stored, get_user_by_username, get_user_by_id, get_group_by_id, create_user, update_user,
  create_group, update_group,
}
use nano_ldap.Message.{to_option}
use nano_ldap.Web.{
  Database, WebState, WebReply, http_error, login_page, panel, panel_error, redirect, Gate,
  admitted, rejected, current_user, with_admin_auth, handle_login, handle_logout,
  handle_update_user, handle_delete_user, handle_update_group, handle_delete_group,
}

pub record Site : Type 0 where
  pub db : Tables
  pub sessions : Session.Store
  pub settings : Settings

-- A request: its cookie, the header `HX-Request`, the value of `{id}` in its path, and its form. The
-- cookie and the form are `none` where they are missing or do not parse. A form maps a name to the values that stand under it.
pub record Request : Type 0 where
  pub cookie : Option Bytes
  pub hx_request : Bytes
  pub id : Bytes
  pub form : Option (Bytes → List Bytes)

-- What the handling of a request reads: the clock round the lock of the sessions and for the store,
-- the random token, and the calls of internal/auth.
pub record Moment : Type 0 where
  pub first : ℕ
  pub now : ℕ
  pub clock : ℕ
  pub token : Option Bytes
  pub hash : Bytes → Option Bytes
  pub verify : Bytes → Bytes → Option Bool

abbrev pub with_option : {A : Type 0} → Tables × Stored A → Tables × Option A
with_option (t, r) = (t, to_option r)

-- The methods of `Store` as the handlers call them.
abbrev pub database : Moment → Database Tables
database m = record {
  authenticate_user =
      λ t name password. to_option (Store.authenticate_user m.verify t name password);
  get_user_by_username = λ t name. to_option (get_user_by_username t name);
  get_user_by_id = λ t id. to_option (get_user_by_id t id);
  update_user = λ t id input. with_option (update_user m.hash m.clock t id input);
  delete_user = λ t id. (Store.delete_user t id, true);
  get_group_by_id = λ t id. to_option (get_group_by_id t id);
  update_group = λ t id input. with_option (update_group t id input);
  delete_group = λ t id. (Store.delete_group t id, true);
}

-- `r.Form.Get`.
abbrev pub form_get : (Bytes → List Bytes) → Bytes → Bytes
form_get form name = elim (form name) [ [] ↦ [] | x ∷ xs ↦ x ]

-- The input of `handleCreateUser`, and that of `handleUpdateUser`, which has no name.
unfoldable pub user_form : (Bytes → List Bytes) → UserInput
user_form form = record {
  username = form_get form (codes "username");
  password = form_get form (codes "password");
  display_name = form_get form (codes "display_name");
  disabled = beq (form_get form (codes "disabled")) (codes "on");
  group_names = form (codes "group");
}

unfoldable pub user_update_form : (Bytes → List Bytes) → UserInput
unfolding user_form
user_update_form form = record (user_form form) { username = [] }

unfoldable pub group_form : (Bytes → List Bytes) → GroupInput
group_form form = record {
  name = form_get form (codes "name");
  description = form_get form (codes "description");
}

abbrev pub parsed :
    {A : Type 0} → ((Bytes → List Bytes) → A) → Option (Bytes → List Bytes) → Option A
parsed f none = none
parsed f (some form) = some (f form)

abbrev pub of_result : {A : Type 0} → Stored A → WebReply
of_result (ok a) = panel 201
of_result (err e) = panel_error 400

unfoldable pub handle_create_user : Moment → Site → Option UserInput → Site × WebReply
handle_create_user m st none = (st, http_error 400)
handle_create_user m st (some input) =
    let (t, r) = create_user m.hash m.clock st.db input in (record st { db = t }, of_result r)

unfoldable pub handle_create_group : Site → Option GroupInput → Site × WebReply
handle_create_group st none = (st, http_error 400)
handle_create_group st (some input) =
    let (t, r) = create_group st.db input in (record st { db = t }, of_result r)

abbrev pub changed_settings : Site → Settings × Result BaseDnError (Unit {0}) → Site × WebReply
changed_settings st (settings, err e) = (st, panel_error 500)
changed_settings st (settings, ok _) = (record st { settings = settings }, panel 200)

abbrev pub stored_base_dn : Site → Bytes → Tables × Stored (Unit {0}) → Site × WebReply
stored_base_dn st normalized (t, err e) = (record st { db = t }, panel_error 500)
stored_base_dn st normalized (t, ok _) =
    changed_settings (record st { db = t }) (Directory.set_base_dn st.settings normalized)

-- `handleUpdateBaseDN` behind `NormalizeBaseDN`: the store, then the settings.
unfoldable pub save_base_dn : Site → Bytes → Site × WebReply
save_base_dn st normalized = stored_base_dn st normalized (Store.set_base_dn st.db normalized)

unfoldable pub handle_update_base_dn : Site → Option Bytes → Site × WebReply
unfolding save_base_dn
handle_update_base_dn st none = (st, http_error 400)
handle_update_base_dn st (some base_dn) = elim (normalize_base_dn base_dn) [
  | err e ↦ (st, panel_error 400)
  | ok normalized ↦ save_base_dn st normalized
]

-- The routes behind `withAdminAuth`, and the other ones of `SecureMux` but the assets. A request by
-- HEAD, which the multiplexer takes to a GET route, is left out.
pub data Action : Type 0 where
  logout home users_page creates_user updates_user deletes_user : Action
  groups_page creates_group updates_group deletes_group updates_base_dn : Action

pub data Route : Type 0 where
  ca_cert login_form login : Route
  guarded : Action → Route

abbrev pub is_get : Action → Bool
is_get home = true
is_get users_page = true
is_get groups_page = true
is_get _ = false

abbrev pub with_web : Site → WebState Tables × WebReply → Site × WebReply
with_web st (web, reply) = (record st { db = web.db; sessions = web.sessions }, reply)

abbrev pub web : Site → WebState Tables
web st = record { db = st.db; sessions = st.sessions }

-- The handlers behind `withAdminAuth`. Their `strconv.ParseInt` gives the pattern of an int64.
unfoldable pub act : Moment → Site → Action → Request → Site × WebReply
unfolding handle_create_user handle_create_group handle_update_base_dn user_form user_update_form
    group_form
act m st logout req =
    (record st { sessions = handle_logout st.sessions req.cookie }, redirect (codes "/login"))
act m st home req = (st, redirect (codes "/users"))
act m st users_page req = (st, panel 200)
act m st creates_user req = handle_create_user m st (parsed user_form req.form)
act m st updates_user req =
    with_web st
      (handle_update_user (database m) (web st) (atoi req.id) (parsed user_update_form req.form))
act m st deletes_user req = with_web st (handle_delete_user (database m) (web st) (atoi req.id))
act m st groups_page req = (st, panel 200)
act m st creates_group req = handle_create_group st (parsed group_form req.form)
act m st updates_group req =
    with_web st
      (handle_update_group (database m) (web st) (atoi req.id) (parsed group_form req.form))
act m st deletes_group req = with_web st (handle_delete_group (database m) (web st) (atoi req.id))
act m st updates_base_dn req =
    handle_update_base_dn st (parsed (λ form. form_get form (codes "base_dn")) req.form)

-- What a request is answered with.
pub data Answer : Type 0 where
  certificate : Answer
  replied : WebReply → Answer

abbrev pub pass_gate : Moment → Site → Action → Request → Session.Store × Gate → Site × Answer
pass_gate m st a req (sessions, rejected reply) = (record st { sessions = sessions }, replied reply)
pass_gate m st a req (sessions, admitted user id) =
    let (st', reply) = act m (record st { sessions = sessions }) a req in (st', replied reply)

abbrev pub users_of : Site → Bytes → Option User
users_of st name = to_option (get_user_by_username st.db name)

abbrev pub login_form_reply : Option (User × Bytes) → WebReply
login_form_reply none = login_page 200
login_form_reply (some found) = redirect (codes "/users")

abbrev pub credentials : (Bytes → List Bytes) → Bytes × Bytes
credentials form = (form_get form (codes "username"), form_get form (codes "password"))

-- A request to a route of `SecureMux`.
unfoldable pub handle : Moment → Site → Route → Request → Site × Answer
unfolding act
handle m st ca_cert req = (st, certificate)
handle m st login_form req =
    let (sessions, found) = current_user (users_of st) st.sessions req.cookie m.first m.now in
    (record st { sessions = sessions }, replied (login_form_reply found))
handle m st login req =
    let done =
      handle_login
        (λ name password. to_option (Store.authenticate_user m.verify st.db name password))
        st.sessions (parsed credentials req.form) m.first m.token m.now in
    (record st { sessions = done.sessions }, replied done.reply)
handle m st (guarded a) req =
    pass_gate m st a req
      (with_admin_auth (users_of st) st.sessions (is_get a) req.cookie m.first m.now)

-- The requests that are handled, one after the other.
unfoldable pub handle_all : Site → List (Moment × Route × Request) → Site
unfolding handle
handle_all st [] = st
handle_all st ((m, route, req) ∷ rest) = handle_all (handle m st route req).0 rest

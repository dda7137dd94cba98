-- ===== src/Site/Integrity.antt =====
-- Requests to the web server keep the store's tables valid.
use mathlib.Core.Path.{subst}
use nano_ldap.Prelude.{
  ℕ, ◌≡◌, refl, sym, List, [], ◌∷◌, Option, none, some, Result, ok, err, Result-cases, inl, inr,
}
use nano_ldap.Text.{Bytes, codes}
use nano_ldap.Text.Decimal.{atoi}
use nano_ldap.Directory
use nano_ldap.Directory.{Settings, BaseDnError, normalize_base_dn}
use nano_ldap.Entry.{User, Group}
use nano_ldap.Accounts.{UserInput, GroupInput}
use nano_ldap.Session
use nano_ldap.Sql.{Tables}
use nano_ldap.Sql.Valid.{IsValid}
use nano_ldap.Store
use nano_ldap.Store.{Stored, update_user, update_group}
use nano_ldap.Store.Integrity.{Call, sets_base_dn, perform-IsValid}
use nano_ldap.Web.{
  saved_user, saved_group, WebState, Gate, admitted, rejected, with_admin_auth, handle_update_user,
  handle_delete_user, handle_update_group, handle_delete_group,
}
use nano_ldap.Site.{
  Site, Request, Moment, Action, Route, ca_cert, login_form, login, guarded, is_get, act, handle,
  pass_gate, users_of, web, database, handle_create_user, handle_create_group,
  handle_update_base_dn, save_base_dn, stored_base_dn, parsed, user_form, changed_settings,
  with_option, handle_all, logout, home, users_page, groups_page, updates_base_dn, user_update_form,
  group_form, form_get,
}

changed_settings_db :
    (st : Site) (p : Settings × Result BaseDnError (Unit {0}))
    → (changed_settings st p).0.db ≡ st.db
changed_settings_db st (settings, err e) = refl
changed_settings_db st (settings, ok _) = refl

stored_base_dn_db :
    (st : Site) (n : Bytes) (p : Tables × Stored (Unit {0})) → (stored_base_dn st n p).0.db ≡ p.0
stored_base_dn_db st n (t, err e) = refl
stored_base_dn_db st n (t, ok _) =
    changed_settings_db (record st { db = t }) (Directory.set_base_dn st.settings n)

saved_user_db :
    (m : Moment) (st : WebState Tables) (p : Tables × Option User)
    → (saved_user (database m) st p).0.db ≡ p.0
saved_user_db m st (t, none) = refl
saved_user_db m st (t, some u) = refl

saved_group_db :
    (m : Moment) (st : WebState Tables) (p : Tables × Option Group)
    → (saved_group (database m) st p).0.db ≡ p.0
saved_group_db m st (t, none) = refl
saved_group_db m st (t, some g) = refl

module _ (m : Moment) (st : Site) (req : Request) (v : IsValid st.db) where
  create_user-IsValid : (input : Option UserInput) → IsValid (handle_create_user m st input).0.db
  unfolding handle_create_user
  create_user-IsValid none = v
  create_user-IsValid (some input) =
      perform-IsValid st.db (Call.creates_user m.hash m.clock input) v

  create_group-IsValid : (input : Option GroupInput) → IsValid (handle_create_group st input).0.db
  unfolding handle_create_group
  create_group-IsValid none = v
  create_group-IsValid (some input) = perform-IsValid st.db (Call.creates_group input) v

  update_base_dn-IsValid : (s : Option Bytes) → IsValid (handle_update_base_dn st s).0.db
  unfolding handle_update_base_dn save_base_dn
  update_base_dn-IsValid none = v
  update_base_dn-IsValid (some s) = elim (Result-cases (normalize_base_dn s)) [
    | inr (x, e) ↦ rw (e, handle_update_base_dn) v
    | inl (n, e) ↦
        rw (e, handle_update_base_dn)
          (subst IsValid (sym (stored_base_dn_db st n (Store.set_base_dn st.db n)))
            (perform-IsValid st.db (sets_base_dn n) v))
  ]

  update_user-IsValid :
      (id : Option ℕ) (input : Option UserInput)
      → IsValid (handle_update_user (database m) (web st) id input).0.db
  unfolding handle_update_user
  update_user-IsValid none input = v
  update_user-IsValid (some id) none = v
  update_user-IsValid (some id) (some input) =
      subst IsValid
        (sym (saved_user_db m (web st) (with_option (update_user m.hash m.clock st.db id input))))
        (perform-IsValid st.db (Call.updates_user m.hash m.clock id input) v)

  update_group-IsValid :
      (id : Option ℕ) (input : Option GroupInput)
      → IsValid (handle_update_group (database m) (web st) id input).0.db
  unfolding handle_update_group
  update_group-IsValid none input = v
  update_group-IsValid (some id) none = v
  update_group-IsValid (some id) (some input) =
      subst IsValid (sym (saved_group_db m (web st) (with_option (update_group st.db id input))))
        (perform-IsValid st.db (Call.updates_group id input) v)

  delete_user-IsValid : (id : Option ℕ) → IsValid (handle_delete_user (database m) (web st) id).0.db
  unfolding handle_delete_user
  delete_user-IsValid none = v
  delete_user-IsValid (some id) = perform-IsValid st.db (Call.deletes_user id) v

  delete_group-IsValid :
      (id : Option ℕ) → IsValid (handle_delete_group (database m) (web st) id).0.db
  unfolding handle_delete_group
  delete_group-IsValid none = v
  delete_group-IsValid (some id) = perform-IsValid st.db (Call.deletes_group id) v

  act-IsValid : (a : Action) → IsValid (act m st a req).0.db
  unfolding act
  act-IsValid logout = v
  act-IsValid home = v
  act-IsValid users_page = v
  act-IsValid Action.creates_user = create_user-IsValid (parsed user_form req.form)
  act-IsValid Action.updates_user =
      update_user-IsValid (atoi req.id) (parsed user_update_form req.form)
  act-IsValid Action.deletes_user = delete_user-IsValid (atoi req.id)
  act-IsValid groups_page = v
  act-IsValid Action.creates_group = create_group-IsValid (parsed group_form req.form)
  act-IsValid Action.updates_group = update_group-IsValid (atoi req.id) (parsed group_form req.form)
  act-IsValid Action.deletes_group = delete_group-IsValid (atoi req.id)
  act-IsValid updates_base_dn =
      update_base_dn-IsValid (parsed (λ form. form_get form (codes "base_dn")) req.form)

pass_gate-IsValid :
    (m : Moment) (st : Site) (a : Action) (req : Request) (p : Session.Store × Gate)
    → IsValid st.db
    → IsValid (pass_gate m st a req p).0.db
pass_gate-IsValid m st a req (sessions, rejected reply) v = v
pass_gate-IsValid m st a req (sessions, admitted user id) v =
    act-IsValid m (record st { sessions = sessions }) req v a

handle-IsValid :
    (m : Moment) (st : Site) (route : Route) (req : Request)
    → IsValid st.db
    → IsValid (handle m st route req).0.db
unfolding handle
handle-IsValid m st ca_cert req v = v
handle-IsValid m st login_form req v = v
handle-IsValid m st login req v = v
handle-IsValid m st (guarded a) req v =
    pass_gate-IsValid m st a req
      (with_admin_auth (users_of st) st.sessions (is_get a) req.cookie m.first m.now) v

-- The requests keep the tables valid.
pub handle_all-IsValid :
    (st : Site) (requests : List (Moment × Route × Request))
    → IsValid st.db
    → IsValid (handle_all st requests).db
unfolding handle_all
handle_all-IsValid st [] v = v
handle_all-IsValid st ((m, route, req) ∷ rest) v =
    handle_all-IsValid (handle m st route req).0 rest (handle-IsValid m st route req v)

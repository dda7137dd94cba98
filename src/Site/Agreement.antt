-- ===== src/Site/Agreement.antt =====
-- The settings that the LDAP server reads are those of the store, whatever requests the web server
-- handles.
use mathlib.Core.Path.{subst}
use nano_ldap.Prelude.{
  ℕ, ◌≡◌, refl, sym, ap, ◌∙◌, List, [], ◌∷◌, Option, none, some, ok, Result-cases, inl, inr,
}
use nano_ldap.Text.{Bytes, codes}
use nano_ldap.Text.Decimal.{atoi}
use nano_ldap.Directory
use nano_ldap.Directory.{Settings, BaseDnError, normalize_base_dn}
use nano_ldap.Directory.Normal.{normalize_base_dn_idem}
use nano_ldap.Entry.{User, Group}
use nano_ldap.Accounts.{UserInput, GroupInput}
use nano_ldap.Session
use nano_ldap.Sql.{Tables, delete_user_row, delete_group_row}
use nano_ldap.Store
use nano_ldap.Store.{Stored, read_base_dn, create_user, update_user, create_group, update_group}
use nano_ldap.Store.BaseDn.{read_base_dn-set_base_dn}
use nano_ldap.Store.Frame.{
  Keeps, read_base_dn-Keeps, create_user-Keeps, update_user-Keeps, create_group-Keeps,
  update_group-Keeps,
}
use nano_ldap.Web.{
  saved_user, saved_group, Gate, admitted, rejected, with_admin_auth, handle_update_user,
  handle_delete_user, handle_update_group, handle_delete_group,
}
use nano_ldap.Site.{
  Site, Request, Moment, Action, Route, ca_cert, login_form, login, guarded, is_get, act, handle,
  pass_gate, users_of, web, with_web, database, handle_create_user, handle_create_group,
  handle_update_base_dn, save_base_dn, stored_base_dn, parsed, user_form, user_update_form,
  group_form, form_get, changed_settings, with_option, handle_all,
}

-- The store's base DN is that of the settings.
abbrev pub Agrees : Site → Type 0
Agrees st = read_base_dn st.db ≡ ok st.settings.base_dn

Keeps-Agrees :
    (st : Site) (t : Tables) → Keeps st.db t → Agrees st → read_base_dn t ≡ ok st.settings.base_dn
Keeps-Agrees st t k a = read_base_dn-Keeps st.db t k ∙ a

set_base_dn_normal :
    (s : Settings) (n : Bytes)
    → normalize_base_dn n ≡ ok n
    → Directory.set_base_dn s n ≡ (record s { base_dn = n }, ok tt)
unfolding Directory.set_base_dn
set_base_dn_normal s n e = rw (e, Directory.set_base_dn) refl

save_base_dn-Agrees :
    (st : Site) (n : Bytes) → normalize_base_dn n ≡ ok n → Agrees (save_base_dn st n).0
unfolding save_base_dn
save_base_dn-Agrees st n e =
    let (p, q) = read_base_dn-set_base_dn st.db st.db n n e in
    let stored : Site = record st { db = record st.db { base_dn = some n } } in
    subst (λ r. Agrees (stored_base_dn st n r).0) (sym p)
      (subst (λ r. Agrees (changed_settings stored r).0) (sym (set_base_dn_normal st.settings n e))
        (ap (λ r. read_base_dn r.0) (sym p) ∙ q))

module _ (m : Moment) (st : Site) (req : Request) (a : Agrees st) where
  saved_user-Keeps :
      (p : Tables × Option User)
      → Keeps st.db p.0
      → Agrees (with_web st (saved_user (database m) (web st) p)).0
  saved_user-Keeps (t, none) k = Keeps-Agrees st t k a
  saved_user-Keeps (t, some u) k = Keeps-Agrees st t k a

  saved_group-Keeps :
      (p : Tables × Option Group)
      → Keeps st.db p.0
      → Agrees (with_web st (saved_group (database m) (web st) p)).0
  saved_group-Keeps (t, none) k = Keeps-Agrees st t k a
  saved_group-Keeps (t, some g) k = Keeps-Agrees st t k a

  create_user-Agrees : (input : Option UserInput) → Agrees (handle_create_user m st input).0
  unfolding handle_create_user
  create_user-Agrees none = a
  create_user-Agrees (some input) =
      Keeps-Agrees st _ (create_user-Keeps m.hash m.clock st.db input) a

  create_group-Agrees : (input : Option GroupInput) → Agrees (handle_create_group st input).0
  unfolding handle_create_group
  create_group-Agrees none = a
  create_group-Agrees (some input) = Keeps-Agrees st _ (create_group-Keeps st.db input) a

  update_base_dn-Agrees : (s : Option Bytes) → Agrees (handle_update_base_dn st s).0
  unfolding handle_update_base_dn
  update_base_dn-Agrees none = a
  update_base_dn-Agrees (some s) = elim (Result-cases (normalize_base_dn s)) [
    | inr (x, e) ↦ rw (e, handle_update_base_dn) a
    | inl (n, e) ↦
        rw (e, handle_update_base_dn) (save_base_dn-Agrees st n (normalize_base_dn_idem s n e))
  ]

  update_user-Agrees :
      (id : Option ℕ) (input : Option UserInput)
      → Agrees (with_web st (handle_update_user (database m) (web st) id input)).0
  unfolding handle_update_user
  update_user-Agrees none input = a
  update_user-Agrees (some id) none = a
  update_user-Agrees (some id) (some input) =
      saved_user-Keeps (with_option (update_user m.hash m.clock st.db id input))
        (update_user-Keeps m.hash m.clock st.db id input)

  update_group-Agrees :
      (id : Option ℕ) (input : Option GroupInput)
      → Agrees (with_web st (handle_update_group (database m) (web st) id input)).0
  unfolding handle_update_group
  update_group-Agrees none input = a
  update_group-Agrees (some id) none = a
  update_group-Agrees (some id) (some input) =
      saved_group-Keeps (with_option (update_group st.db id input))
        (update_group-Keeps st.db id input)

  delete_user-Agrees :
      (id : Option ℕ) → Agrees (with_web st (handle_delete_user (database m) (web st) id)).0
  unfolding handle_delete_user Store.delete_user delete_user_row
  delete_user-Agrees none = a
  delete_user-Agrees (some id) = Keeps-Agrees st (Store.delete_user st.db id) refl a

  delete_group-Agrees :
      (id : Option ℕ) → Agrees (with_web st (handle_delete_group (database m) (web st) id)).0
  unfolding handle_delete_group Store.delete_group delete_group_row
  delete_group-Agrees none = a
  delete_group-Agrees (some id) = Keeps-Agrees st (Store.delete_group st.db id) refl a

  act-Agrees : (c : Action) → Agrees (act m st c req).0
  unfolding act
  act-Agrees Action.logout = a
  act-Agrees Action.home = a
  act-Agrees Action.users_page = a
  act-Agrees Action.creates_user = create_user-Agrees (parsed user_form req.form)
  act-Agrees Action.updates_user =
      update_user-Agrees (atoi req.id) (parsed user_update_form req.form)
  act-Agrees Action.deletes_user = delete_user-Agrees (atoi req.id)
  act-Agrees Action.groups_page = a
  act-Agrees Action.creates_group = create_group-Agrees (parsed group_form req.form)
  act-Agrees Action.updates_group = update_group-Agrees (atoi req.id) (parsed group_form req.form)
  act-Agrees Action.deletes_group = delete_group-Agrees (atoi req.id)
  act-Agrees Action.updates_base_dn =
      update_base_dn-Agrees (parsed (λ form. form_get form (codes "base_dn")) req.form)

pass_gate-Agrees :
    (m : Moment) (st : Site) (c : Action) (req : Request) (p : Session.Store × Gate)
    → Agrees st
    → Agrees (pass_gate m st c req p).0
pass_gate-Agrees m st c req (sessions, rejected reply) a = a
pass_gate-Agrees m st c req (sessions, admitted user id) a =
    act-Agrees m (record st { sessions = sessions }) req a c

handle-Agrees :
    (m : Moment) (st : Site) (route : Route) (req : Request)
    → Agrees st
    → Agrees (handle m st route req).0
unfolding handle
handle-Agrees m st ca_cert req a = a
handle-Agrees m st login_form req a = a
handle-Agrees m st login req a = a
handle-Agrees m st (guarded c) req a =
    pass_gate-Agrees m st c req
      (with_admin_auth (users_of st) st.sessions (is_get c) req.cookie m.first m.now) a

pub handle_all-Agrees :
    (st : Site) (requests : List (Moment × Route × Request))
    → Agrees st
    → Agrees (handle_all st requests)
unfolding handle_all
handle_all-Agrees st [] a = a
handle_all-Agrees st ((m, route, req) ∷ rest) a =
    handle_all-Agrees (handle m st route req).0 rest (handle-Agrees m st route req a)

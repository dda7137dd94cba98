-- ===== src/Site/Guarded.antt =====
-- Nobody but an administrator changes the directory over the web.
use nano_ldap.Prelude.{◌≡◌, refl, ◌⊎◌, inl, inr}
use nano_ldap.Text.{Bytes}
use nano_ldap.Entry.{User}
use nano_ldap.Session
use nano_ldap.Session.Invariant.{IsValid}
use nano_ldap.Web.{Gate, admitted, rejected, with_admin_auth}
use nano_ldap.Web.Access.{Admission, with_admin_auth-Admission}
use nano_ldap.Site.{
  Site, Request, Moment, Action, Route, ca_cert, login_form, login, guarded, is_get, pass_gate,
  users_of, handle,
}

-- The store's tables and the settings are as they were.
abbrev pub Untouched : Site → Site → Type 0
Untouched st st' = (st'.db ≡ st.db) × (st'.settings ≡ st.settings)

-- The route is one behind `withAdminAuth`, and the request comes from an administrator.
pub record IsAdministrator (m : Moment) (st : Site) (route : Route) (req : Request) : Type 0 where
  pub action : Action
  pub user : User
  pub id : Bytes
  pub goes_to : route ≡ guarded action
  pub admission : Admission (users_of st) st.sessions req.cookie m.first user id

pass_gate_cases :
    (m : Moment) (st : Site) (a : Action) (req : Request) (p : Session.Store × Gate)
    → Untouched st (pass_gate m st a req p).0
      ⊎ ((user : User) × (id : Bytes) × (p.1 ≡ admitted user id))
pass_gate_cases m st a req (sessions, rejected reply) = inl (refl, refl)
pass_gate_cases m st a req (sessions, admitted user id) = inr (user, id, refl)

-- In a valid session store, a request to any route of the web server leaves the tables and the
-- settings as they are, or it goes to a route behind `withAdminAuth` and presents the id of a
-- session that has not expired and whose user is, at that moment, an enabled member of `admins`.
pub handle_guarded :
    (m : Moment) (st : Site) (route : Route) (req : Request)
    → IsValid st.sessions
    → Untouched st (handle m st route req).0 ⊎ IsAdministrator m st route req
unfolding handle
handle_guarded m st ca_cert req v = inl (refl, refl)
handle_guarded m st login_form req v = inl (refl, refl)
handle_guarded m st login req v = inl (refl, refl)
handle_guarded m st (guarded a) req v =
    let gate = with_admin_auth (users_of st) st.sessions (is_get a) req.cookie m.first m.now in
    elim (pass_gate_cases m st a req gate) [
      | inl same ↦ inl same
      | inr (user, id, e) ↦ inr (record {
        action = a;
        user = user;
        id = id;
        goes_to = refl;
        admission =
            (with_admin_auth-Admission (users_of st) st.sessions (is_get a) req.cookie m.first m.now
                user id v).0
              e;
      })
    ]

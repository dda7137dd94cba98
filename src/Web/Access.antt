-- ===== src/Web/Access.antt =====
-- Whom the web interface lets in.
use nano_ldap.Prelude.{
  ℕ, ◌≤◌, ◌≡◌, refl, Bool, true, false, arith, ltb, Option, none, some, Option-cases, Bool-cases,
  inl, inr, ◌↔◌, ◌∙◌, sym, ap,
}
use nano_ldap.Text.{Bytes}
use nano_ldap.Assoc.{get}
use nano_ldap.Entry.{User, is_member_of}
use nano_ldap.Session.{Session, Store, touch, get_session}
use nano_ldap.Session.Invariant.{IsValid}
use nano_ldap.Session.Lookup.{live, live-some, get_session-live}
use nano_ldap.Web.{admins, admitted, gate_of, user_of_session, current_user, with_admin_auth}

-- The session is that of an enabled administrator.
pub record Account (users : Bytes → Option User) (s : Session) (user : User) (id : Bytes)
    : Type 0 where
  pub account : users s.username ≡ some user
  pub enabled : user.disabled ≡ false
  pub admin : is_member_of user admins ≡ true
  pub same_id : id ≡ s.id

gate_some :
    (users : Bytes → Option User) (st : Store) (g : Bool) (s : Session) (user : User) (id : Bytes)
    → gate_of g (user_of_session users st (some s)).1 ≡ admitted user id
    → Account users s user id
unfolding user_of_session
gate_some users st g s user id e = elim (Option-cases (users s.username)) [
  | inl q ↦ absurd (ground arith)
  | inr (u, q) ↦ elim (Bool-cases u.disabled) [
    | inl off ↦ absurd (ground arith)
    | inr on ↦ elim (Bool-cases (is_member_of u admins)) [
      | inl admin ↦
          let (same, ids) : (u ≡ user) × (s.id ≡ id) = ground arith in
          record {
            account = q ∙ ap some same;
            enabled = ap (λ v. v.disabled) (sym same) ∙ on;
            admin = ap (λ v. is_member_of v admins) (sym same) ∙ admin;
            same_id = sym ids;
          }
      | inr other ↦ absurd (ground arith)
    ]
  ]
]

gate-Account :
    (users : Bytes → Option User) (st : Store) (g : Bool) (s : Session) (user : User) (id : Bytes)
    → Account users s user id
    → gate_of g (user_of_session users st (some s)).1 ≡ admitted user id
unfolding user_of_session
gate-Account users st g s user id a = ground (arith, a.account, a.enabled, a.admin, a.same_id)

gate_iff :
    (users : Bytes → Option User) (st : Store) (g : Bool) (found : Option Session) (user : User)
    (id : Bytes)
    → (gate_of g (user_of_session users st found).1 ≡ admitted user id)
      ↔ ((s : Session) × (found ≡ some s) × Account users s user id)
gate_iff users st g none user id =
    (λ e. absurd (unfold user_of_session in cc), λ (s, q, a). absurd (cc))
gate_iff users st g (some s) user id = (
  λ e. (s, refl, gate_some users st g s user id e),
  λ (r, q, a).
      ap (λ o. gate_of g (user_of_session users st o).1) q ∙ gate-Account users st g r user id a,
)

-- A request is let in as a user exactly when its cookie is the id of a session that has not expired,
-- and the account of that session is, now, an enabled member of `admins`.
pub record Admission (users : Bytes → Option User) (st : Store) (cookie : Option Bytes) (first : ℕ)
    (user : User) (id : Bytes) : Type 0 where
  pub session : Session
  pub presented : cookie ≡ some id
  pub stored : get id st.sessions ≡ some session
  pub unexpired : first ≤ session.expires_at
  pub owner : Account users session user id

-- In a valid session store `withAdminAuth` lets a request in as a user with a session id exactly
-- when its cookie is the id of a stored session that has not expired, and the account of the
-- session's name is, at that moment, an enabled member of `admins`.
pub with_admin_auth-Admission :
    (users : Bytes → Option User) (st : Store) (is_get : Bool) (cookie : Option Bytes)
    (first now : ℕ) (user : User) (id : Bytes)
    → IsValid st
    → ((with_admin_auth users st is_get cookie first now).1 ≡ admitted user id)
      ↔ Admission users st cookie first user id
unfolding with_admin_auth current_user
with_admin_auth-Admission users st is_get none first now user id v =
    (λ e. absurd (ground arith), λ a. absurd (ground (arith, a.presented)))
with_admin_auth-Admission users st is_get (some c) first now user id v = (to, from)
  where
    found : Option Session
    found = (get_session st c first now).1

    is_live : found ≡ live st first now (get c st.sessions)
    is_live = get_session-live st c first now v.distinct

    after : Store
    after = (get_session st c first now).0

    to :
        gate_of is_get (user_of_session users after found).1 ≡ admitted user id
        → Admission users st (some c) first user id
    to e =
        let (s, q, a) = (gate_iff users after is_get found user id).0 e in
        let (r, o, t, w) = live-some st first now _ s (sym is_live ∙ q) in
        let same : s.id ≡ r.id = ap (λ x. x.id) t in
        let c_id : c ≡ id = sym (v.entries c r o).0 ∙ sym same ∙ sym a.same_id in
        record {
          session = r;
          presented = ap some c_id;
          stored = ap (λ k. get k st.sessions) (sym c_id) ∙ o;
          unexpired = w;
          owner = record {
            account = ap (λ x. users x.username) (sym t) ∙ a.account;
            enabled = a.enabled;
            admin = a.admin;
            same_id = a.same_id ∙ same;
          };
        }

    from :
        Admission users st (some c) first user id
        → gate_of is_get (user_of_session users after found).1 ≡ admitted user id
    from a =
        let fresh : ltb a.session.expires_at first ≡ false = ground (arith, a.unexpired) in
        let o : get c st.sessions ≡ some a.session = ground (arith, a.presented, a.stored) in
        (gate_iff users after is_get found user id).1 (
          touch st a.session now,
          is_live ∙ rw (o, fresh),
          record {
            account = a.owner.account;
            enabled = a.owner.enabled;
            admin = a.owner.admin;
            same_id = a.owner.same_id;
          },
        )

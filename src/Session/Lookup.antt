-- ===== src/Session/Lookup.antt =====
-- What `Get` returns, by itself and behind the other methods.
use nano_ldap.Prelude.{
  ap, ℕ, ◌+◌, ◌≤◌, ◌≡◌, refl, false, arith, ltb, leb, if◌then◌else◌, Option, none, some, length,
  Bool-cases, Option-cases, inl, inr, ok, ◌∙◌, sym,
}
use nano_ldap.Text.{Bytes, AreBytes, beq}
use nano_ldap.Text.Case.{beq_self}
use nano_ldap.Assoc.{get, revise, revised, Distinct, get-put, get-revise, revise-Distinct}
use nano_ldap.Session.{
  hex_encode, Session, Store, unless_expired, cleanup, new_session, create_clean, create, touch,
  get_clean, get_session, unless_id, delete_session, unless_of_user, revoke_user,
}
use nano_ldap.Session.Hex.{hex_encode-injective}
use nano_ldap.Session.Invariant.{IsValid, step-IsValid, created}

abbrev pub live : Store → ℕ → ℕ → Option Session → Option Session
live st first now none = none
live st first now (some s) = if ltb s.expires_at first then none else some (touch st s now)

get_clean_answer :
    (st : Store) (id : Bytes) (now : ℕ) (o : Option Session)
    → get id st.sessions ≡ o
    → (get_clean st id now).1 ≡ (elim o [ none ↦ none | some s ↦ some (touch st s now) ])
unfolding get_clean
get_clean_answer st id now none e = rw (e, get_clean)
get_clean_answer st id now (some s) e = rw (e, get_clean)

get-cleanup :
    (st : Store) (id : Bytes) (now : ℕ)
    → Distinct st.sessions
    → get id (cleanup st now).sessions ≡ revised (unless_expired now) id (get id st.sessions)
unfolding cleanup
get-cleanup st id now d = get-revise (unless_expired now) id st.sessions d

-- In a store without duplicate ids `Get` returns exactly the session that stands under the id and
-- has not expired, and moves its expiry to `timeout` after now.
pub get_session-live :
    (st : Store) (id : Bytes) (first now : ℕ)
    → Distinct st.sessions
    → (get_session st id first now).1 ≡ live st first now (get id st.sessions)
unfolding get_session
get_session-live st id first now d = elim (Option-cases (get id st.sessions)) [
  | inl q ↦
      rw q (get_clean_answer (cleanup st first) id now none (get-cleanup st id first d ∙ rw q))
  | inr (s, q) ↦ elim (Bool-cases (ltb s.expires_at first)) [
    | inl old ↦
        rw (q, old)
          (get_clean_answer (cleanup st first) id now none
            (get-cleanup st id first d ∙ rw (q, old)))
    | inr good ↦
        rw (q, good)
          (get_clean_answer (cleanup st first) id now (some s)
              (get-cleanup st id first d ∙ rw (q, good))
            ∙ unfold cleanup in refl)
  ]
]

pub live-some :
    (st : Store) (first now : ℕ) (o : Option Session) (s : Session)
    → live st first now o ≡ some s
    → (r : Session) × (o ≡ some r) × (s ≡ touch st r now) × (first ≤ r.expires_at)
live-some st first now none s e = cc
live-some st first now (some r) s e = (r, refl, ground arith, ground arith)

-- A session, unless it is of this user.
abbrev pub others : Bytes → Option Session → Option Session
others u none = none
others u (some s) = if beq s.username u then none else some s

revised_others : (u id : Bytes) (o : Option Session) → revised (unless_of_user u) id o ≡ others u o
revised_others u id none = refl
revised_others u id (some s) = refl

-- In a store without duplicate ids: after `RevokeUser` no id gives a session of that user, and
-- `Get` of every other session that has not expired returns it, with its expiry moved.
pub get_session-revoke_user :
    (st : Store) (u id : Bytes) (first now : ℕ)
    → Distinct st.sessions
    → (get_session (revoke_user st u) id first now).1
      ≡ live st first now (others u (get id st.sessions))
unfolding revoke_user
get_session-revoke_user st u id first now d =
    let f = unless_of_user u in
    get_session-live (record st { sessions = revise f st.sessions }) id first now
      (revise-Distinct f st.sessions d)
    ∙ ap (live st first now)
        (get-revise f id st.sessions d ∙ revised_others u id (get id st.sessions))

-- After `Delete` the id gives no session.
pub get_session-delete_session :
    (st : Store) (id : Bytes) (first now : ℕ)
    → Distinct st.sessions
    → (get_session (delete_session st id) id first now).1 ≡ none
unfolding delete_session
get_session-delete_session st id first now d =
    let m = revise (unless_id id) st.sessions in
    let gone : get id m ≡ none = elim (Option-cases (get id st.sessions)) [
      | inl q ↦ ground (arith, get-revise (unless_id id) id st.sessions d)
      | inr (s, q) ↦ ground (arith, get-revise (unless_id id) id st.sessions d, beq_self id)
    ] in
    get_session-live (record st { sessions = m }) id first now (revise-Distinct _ st.sessions d)
    ∙ rw gone

create_clean-ok :
    (st : Store) (u : Bytes) (token : Option Bytes) (now : ℕ) (s : Session)
    → (create_clean st u token now).1 ≡ ok s
    → (s.username ≡ u)
      × (s.expires_at ≡ now + st.timeout)
      × (get s.id (create_clean st u token now).0.sessions ≡ some s)
      × ((create_clean st u token now).0.timeout ≡ st.timeout)
unfolding create_clean
create_clean-ok st u none now s e = absurd (ground arith)
create_clean-ok st u (some bytes) now s e = elim (Bool-cases (leb st.max (length st.sessions))) [
  | inl full ↦ absurd (ground arith)
  | inr room ↦
      let r : Session = new_session st u bytes now in
      ground (arith, get-put r.id r.id r st.sessions, beq_self r.id)
]

pub create-ok :
    (st : Store) (u : Bytes) (first now : ℕ) (token : Option Bytes) (s : Session)
    → (create st u first token now).1 ≡ ok s
    → (s.username ≡ u)
      × (s.expires_at ≡ now + st.timeout)
      × (get s.id (create st u first token now).0.sessions ≡ some s)
      × ((create st u first token now).0.timeout ≡ st.timeout)
unfolding create cleanup
create-ok st u first now token s e = create_clean-ok (cleanup st first) u token now s e

-- A session that `Create` returns in a valid store is of the user that it was made for, and `Get`
-- finds it under its id until it expires, with its expiry moved.
pub get_session-create :
    (st : Store) (u : Bytes) (first now : ℕ) (token : Option Bytes) (s : Session) (later last : ℕ)
    → IsValid st
    → (create st u first token now).1 ≡ ok s
    → later ≤ now + st.timeout
    → (s.username ≡ u)
      × ((get_session (create st u first token now).0 s.id later last).1
          ≡ some (record s { last_seen = last; expires_at = last + st.timeout }))
get_session-create st u first now token s later last v e within =
    let v' = step-IsValid st (created u first token now) v in
    let (user, expiry, found, same) = create-ok st u first now token s e in
    let good : ltb s.expires_at later ≡ false = ground arith in
    (
      user,
      get_session-live (create st u first token now).0 s.id later last v'.distinct
          ∙ rw (found, good, same),
    )

create_clean-id :
    (st : Store) (u t : Bytes) (now : ℕ) (s : Session)
    → (create_clean st u (some t) now).1 ≡ ok s
    → s.id ≡ hex_encode t
unfolding create_clean
create_clean-id st u t now s e = ground arith

-- Two calls of `Create`, at any stores and for any users, return the same id only if they drew the
-- same random bytes.
pub create-id_injective :
    (st st' : Store) (u u' t t' : Bytes) (first now first' now' : ℕ) (s s' : Session)
    → AreBytes t
    → AreBytes t'
    → (create st u first (some t) now).1 ≡ ok s
    → (create st' u' first' (some t') now').1 ≡ ok s'
    → s.id ≡ s'.id
    → t ≡ t'
unfolding create
create-id_injective st st' u u' t t' first now first' now' s s' b b' e e' same =
    hex_encode-injective t t' b b' (
      sym (create_clean-id (cleanup st first) u t now s e)
      ∙ same
      ∙ create_clean-id (cleanup st' first') u' t' now' s' e')

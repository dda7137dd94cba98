-- ===== src/Session/Invariant.antt =====
-- The session cap and the shape of the stored sessions hold whatever is called.
use nano_ldap.Prelude.{
  ℕ, ◌+◌, ◌≤◌, ◌≡◌, refl, List, [], ◌∷◌, arith, leb, Option, none, some, length, Bool-cases,
  Option-cases, inl, inr,
}
use nano_ldap.Text.{Bytes, beq}
use nano_ldap.Text.Case.{beq_iff}
use nano_ldap.Assoc.{
  Map, get, put, revise, Distinct, get-put, put-Distinct, get-revise, revise-Distinct,
  length-revise, length-put, length-put_old,
}
use nano_ldap.Session.{
  Session, Store, new_store, unless_expired, cleanup, new_session, create_clean, create, touch,
  get_clean, get_session, unless_id, delete_session, unless_of_user, revoke_user,
}

-- Each session stands under its own id, and expires `timeout` after it was last seen.
abbrev pub IsEntry : ℕ → Bytes → Session → Type 0
IsEntry timeout id s = (s.id ≡ id) × (s.expires_at ≡ s.last_seen + timeout)

pub record IsValid (st : Store) : Type 0 where
  pub distinct : Distinct st.sessions
  pub capped : length st.sessions ≤ st.max
  pub entries : (id : Bytes) (s : Session) → get id st.sessions ≡ some s → IsEntry st.timeout id s

pub new_store-IsValid : (timeout max : ℕ) → IsValid (new_store timeout max)
new_store-IsValid timeout max = record {
  distinct = tt;
  capped = omega arith;
  entries = λ id s e. unfold get in cc;
}

-- A `range` loop that only deletes.
abbrev pub Deletes : (Bytes → Session → Option Session) → Type 0
Deletes f = (id : Bytes) (s t : Session) → f id s ≡ some t → s ≡ t

pub get-revise-some :
    (f : Bytes → Session → Option Session) (m : Map Session) (id : Bytes) (t : Session)
    → Distinct m
    → Deletes f
    → get id (revise f m) ≡ some t
    → (get id m ≡ some t) × (f id t ≡ some t)
get-revise-some f m id t d del e = elim (Option-cases (get id m)) [
  | inl q ↦ absurd (ground (arith, get-revise f id m d))
  | inr (s, q) ↦ ground (arith, get-revise f id m d, del id s t)
]

revise-IsValid :
    (f : Bytes → Session → Option Session) (st : Store)
    → Deletes f
    → IsValid st
    → IsValid (record st { sessions = revise f st.sessions })
revise-IsValid f st del v = record {
  distinct = revise-Distinct f st.sessions v.distinct;
  capped = omega (arith, length-revise f st.sessions, v.capped);
  entries = λ id s e. v.entries id s (get-revise-some f st.sessions id s v.distinct del e).0;
}

pub unless_expired-Deletes : (now : ℕ) → Deletes (unless_expired now)
unless_expired-Deletes now id s t e = ground arith

pub unless_id-Deletes : (id : Bytes) → Deletes (unless_id id)
unless_id-Deletes i id s t e = ground arith

pub unless_of_user-Deletes : (username : Bytes) → Deletes (unless_of_user username)
unless_of_user-Deletes u id s t e = ground arith

pub cleanup-IsValid : (st : Store) (now : ℕ) → IsValid st → IsValid (cleanup st now)
unfolding cleanup
cleanup-IsValid st now = revise-IsValid (unless_expired now) st (unless_expired-Deletes now)

delete_session-IsValid : (st : Store) (id : Bytes) → IsValid st → IsValid (delete_session st id)
unfolding delete_session
delete_session-IsValid st id = revise-IsValid (unless_id id) st (unless_id-Deletes id)

revoke_user-IsValid : (st : Store) (u : Bytes) → IsValid st → IsValid (revoke_user st u)
unfolding revoke_user
revoke_user-IsValid st u = revise-IsValid (unless_of_user u) st (unless_of_user-Deletes u)

put-IsValid :
    (st : Store) (id : Bytes) (s : Session)
    → IsEntry st.timeout id s
    → length (put id s st.sessions) ≤ st.max
    → IsValid st
    → IsValid (record st { sessions = put id s st.sessions })
put-IsValid st id s own small v = record {
  distinct = put-Distinct id s st.sessions v.distinct;
  capped = small;
  entries = λ j t e. elim (Bool-cases (beq id j)) [
    | inl q ↦ ground (arith, get-put id j s st.sessions, beq_iff id j)
    | inr q ↦ v.entries j t (ground (arith, get-put id j s st.sessions))
  ];
}

create_clean-IsValid :
    (st : Store) (u : Bytes) (token : Option Bytes) (now : ℕ)
    → IsValid st
    → IsValid (create_clean st u token now).0
unfolding create_clean
create_clean-IsValid st u none now v = elim (Bool-cases (leb st.max (length st.sessions))) [
  | inl q ↦ rw q v
  | inr q ↦ rw q v
]
create_clean-IsValid st u (some bytes) now v = elim (Bool-cases (leb st.max (length st.sessions))) [
  | inl q ↦ rw q v
  | inr q ↦ rw q (
      let s = new_session st u bytes now in
      put-IsValid st s.id s (refl, refl) (ground (arith, length-put s.id s st.sessions)) v)
]

get_clean-IsValid :
    (st : Store) (id : Bytes) (now : ℕ) → IsValid st → IsValid (get_clean st id now).0
unfolding get_clean
get_clean-IsValid st id now v = elim (Option-cases (get id st.sessions)) [
  | inl q ↦ rw (q, get_clean) v
  | inr (s, q) ↦
      rw (q, get_clean)
        (let t = touch st s now in
          put-IsValid st id t ((v.entries id s q).0, refl)
            (ground (arith, length-put_old id t st.sessions, v.capped)) v)
]

-- A call of a method, with what it reads of the clock and of the random source.
pub data Event : Type 0 where
  created : Bytes → ℕ → Option Bytes → ℕ → Event
  looked_up : Bytes → ℕ → ℕ → Event
  deleted : Bytes → Event
  revoked : Bytes → Event

abbrev pub step : Store → Event → Store
step st (created u first token now) = (create st u first token now).0
step st (looked_up id first now) = (get_session st id first now).0
step st (deleted id) = delete_session st id
step st (revoked u) = revoke_user st u

unfoldable pub run : Store → List Event → Store
run st [] = st
run st (e ∷ es) = run (step st e) es

pub step-IsValid : (st : Store) (e : Event) → IsValid st → IsValid (step st e)
unfolding create get_session
step-IsValid st (created u first token now) v =
    create_clean-IsValid (cleanup st first) u token now (cleanup-IsValid st first v)
step-IsValid st (looked_up id first now) v =
    get_clean-IsValid (cleanup st first) id now (cleanup-IsValid st first v)
step-IsValid st (deleted id) v = delete_session-IsValid st id v
step-IsValid st (revoked u) v = revoke_user-IsValid st u v

-- Any sequence of calls of the store's methods keeps it valid: at most `max` sessions, each under
-- its own id, no id twice, and each with an expiry `timeout` after it was last seen.
pub run-IsValid : (es : List Event) (st : Store) → IsValid st → IsValid (run st es)
unfolding run
run-IsValid [] st v = v
run-IsValid (e ∷ es) st v = run-IsValid es (step st e) (step-IsValid st e v)

-- ===== src/Tests/Sessions.antt =====
-- The session store.
use nano_ldap.Prelude.{◌+◌, ◌≡◌, refl, List, [], ◌∷◌, arith, none, some, ok, err}
use nano_ldap.Text.{Bytes, codes}
use nano_ldap.Assoc.{get, put, revise}
use nano_ldap.Session.{
  Session, Store, new_store, hex_encode, create, get_session, delete_session, revoke_user,
  new_session,
}
use nano_ldap.Session.Invariant.{
  IsValid, Event, created, looked_up, deleted, revoked, run, run-IsValid, new_store-IsValid,
}
use nano_ldap.Session.Lookup.{
  live, get_session-live, get_session-revoke_user, others, get_session-delete_session,
  get_session-create, create-id_injective,
}

abbrev sessions : Store
sessions = new_store 100 1

abbrev token : Bytes
token = 0 ∷ 171 ∷ []

abbrev events : List Event
events =
    created (codes "admin") 1 (some token) 1
    ∷ looked_up (codes "00ab") 5 5
    ∷ revoked (codes "admin")
    ∷ []

-- The second session finds the store full, and has room once the first has expired.
second_refused :
    (create
      (create sessions (codes "admin") 1 (some token) 1).0
      (codes "root")
      50
      (some (1 ∷ []))
      50).1
    ≡ err nano_ldap.Session.session_limit
unfolding create revise put hex_encode
second_refused = refl

abbrev one_session : Store
one_session = (create sessions (codes "admin") 1 (some token) 1).0

run-IsValid_example : IsValid (run sessions events)
run-IsValid_example = run-IsValid events sessions (new_store-IsValid 100 1)

one_session-IsValid : IsValid one_session
one_session-IsValid =
    nano_ldap.Session.Invariant.step-IsValid sessions (created (codes "admin") 1 (some token) 1)
      (new_store-IsValid 100 1)

get_session-live_run :
    (get_session one_session (codes "00ab") 200 200).1
    ≡ live one_session 200 200 (get (codes "00ab") one_session.sessions)
get_session-live_run =
    get_session-live one_session (codes "00ab") 200 200 one_session-IsValid.distinct

get_session-revoke_user_example :
    (get_session (revoke_user one_session (codes "guest")) (codes "00ab") 5 6).1
    ≡ live one_session 5 6 (others (codes "guest") (get (codes "00ab") one_session.sessions))
get_session-revoke_user_example =
    get_session-revoke_user one_session (codes "guest") (codes "00ab") 5 6
      one_session-IsValid.distinct

deleted_is_gone :
    (get_session (delete_session one_session (codes "00ab")) (codes "00ab") 2 2).1 ≡ none
deleted_is_gone =
    get_session-delete_session one_session (codes "00ab") 2 2 one_session-IsValid.distinct

abbrev made : Session
made = new_session sessions (codes "admin") token 1

created_ok : (create sessions (codes "admin") 1 (some token) 1).1 ≡ ok made
unfolding create revise
created_ok = refl

get_session-create_example :
    (made.username ≡ codes "admin")
    × ((get_session one_session made.id 60 61).1
        ≡ some (record made { last_seen = 61; expires_at = 61 + 100 }))
get_session-create_example =
    get_session-create sessions (codes "admin") 1 1 (some token) made 60 61
      (new_store-IsValid 100 1) created_ok (omega arith)

create-id_injective_run : token ≡ token
create-id_injective_run =
    create-id_injective sessions sessions (codes "admin") (codes "admin") token token 1 1 1 1 made
      made (omega arith) (omega arith) created_ok created_ok refl

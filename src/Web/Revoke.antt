-- ===== src/Web/Revoke.antt =====
-- What a change of an account does to the sessions of the web interface.
use nano_ldap.Prelude.{
  ℕ, ◌≡◌, ◌≢◌, refl, Bool, List, [], ◌∷◌, arith, Option, some, In, inl, inr, ◌∙◌, sym,
}
use nano_ldap.Text.{Bytes}
use nano_ldap.Text.Case.{beq_iff}
use nano_ldap.Assoc.{get, Distinct}
use nano_ldap.Entry.{User, Group}
use nano_ldap.Session.{Session, Store, unless_of_user, revoke_user}
use nano_ldap.Session.Invariant.{
  IsValid, step-IsValid, revoked, get-revise-some, unless_of_user-Deletes,
}
use nano_ldap.Accounts.{UserInput, GroupInput}
use nano_ldap.Web.{
  Database, WebState, admitted, with_admin_auth, revoke_all, handle_update_user,
  handle_update_group,
}
use nano_ldap.Web.Access.{with_admin_auth-Admission}

-- No stored session is of this user.
abbrev pub IsRevoked : Bytes → Store → Type 0
IsRevoked u st = (id : Bytes) (s : Session) → get id st.sessions ≡ some s → s.username ≢ u

get-revoke_user :
    (st : Store) (v id : Bytes) (s : Session)
    → Distinct st.sessions
    → get id (revoke_user st v).sessions ≡ some s
    → (get id st.sessions ≡ some s) × (s.username ≢ v)
unfolding revoke_user
get-revoke_user st v id s d e =
    let (found, passed) =
      get-revise-some (unless_of_user v) st.sessions id s d (unless_of_user-Deletes v) e in
    (found, λ same. ground (arith, beq_iff s.username v))

revoke_all-IsValid : (st : Store) (us : List Bytes) → IsValid st → IsValid (revoke_all st us)
unfolding revoke_all
revoke_all-IsValid st [] v = v
revoke_all-IsValid st (u ∷ us) v =
    revoke_all-IsValid (revoke_user st u) us (step-IsValid st (revoked u) v)

stays-IsRevoked :
    (st : Store) (us : List Bytes) (u : Bytes)
    → IsValid st
    → IsRevoked u st
    → IsRevoked u (revoke_all st us)
unfolding revoke_all
stays-IsRevoked st [] u v h = h
stays-IsRevoked st (w ∷ us) u v h =
    stays-IsRevoked (revoke_user st w) us u (step-IsValid st (revoked w) v)
      (λ id s e. h id s (get-revoke_user st w id s v.distinct e).0)

revoke_all-IsRevoked :
    (st : Store) (us : List Bytes) (u : Bytes)
    → IsValid st
    → In u us
    → IsRevoked u (revoke_all st us)
unfolding revoke_all
revoke_all-IsRevoked st [] u v m = absurd m
revoke_all-IsRevoked st (w ∷ us) u v (inl e) =
    stays-IsRevoked (revoke_user st w) us u (step-IsValid st (revoked w) v)
      (λ id s q same. (get-revoke_user st w id s v.distinct q).1 (same ∙ e))
revoke_all-IsRevoked st (w ∷ us) u v (inr m) =
    revoke_all-IsRevoked (revoke_user st w) us u (step-IsValid st (revoked w) v) m

admitted_other :
    (users : Bytes → Option User) (st : Store) (is_get : Bool) (cookie : Option Bytes)
    (first now : ℕ) (user : User) (id u : Bytes)
    → ((name : Bytes) (found : User) → users name ≡ some found → found.username ≡ name)
    → IsValid st
    → IsRevoked u st
    → (with_admin_auth users st is_get cookie first now).1 ≡ admitted user id
    → user.username ≢ u
admitted_other users st is_get cookie first now user id u names v h e same =
    let a = (with_admin_auth-Admission users st is_get cookie first now user id v).0 e in
    h id a.session a.stored (sym (names a.session.username user a.owner.account) ∙ same)

module _ {D : Type 0} (api : Database D) (st : WebState D) (id : ℕ) (db : D) where
  -- In a valid session store, where the lookup by name returns users of that name: when
  -- `handleUpdateUser` has changed a user, a request that is let in, whatever its cookie, is not
  -- let in as that user.
  pub handle_update_user-revoked :
      (input : UserInput) (updated : User) (users : Bytes → Option User) (is_get : Bool)
      (cookie : Option Bytes) (first now : ℕ) (user : User) (k : Bytes)
      → IsValid st.sessions
      → api.update_user st.db id input ≡ (db, some updated)
      → ((name : Bytes) (found : User) → users name ≡ some found → found.username ≡ name)
      → (with_admin_auth users
          (handle_update_user api st (some id) (some input)).0.sessions
          is_get
          cookie
          first
          now).1
        ≡ admitted user k
      → user.username ≢ updated.username
  unfolding handle_update_user revoke_all
  handle_update_user-revoked input updated users is_get cookie first now user k v done names e =
      admitted_other users (revoke_user st.sessions updated.username) is_get cookie first now user k
        updated.username names (step-IsValid st.sessions (revoked updated.username) v)
        (revoke_all-IsRevoked st.sessions (updated.username ∷ []) updated.username v (inl refl))
        (rw done at e)

  -- In a valid session store, where the lookup by name returns users of that name: when
  -- `handleUpdateGroup` has changed a group, a request that is let in, whatever its cookie, is not
  -- let in as a member that the store returned with the group.
  pub handle_update_group-revoked :
      (input : GroupInput) (updated : Group) (member : Bytes) (users : Bytes → Option User)
      (is_get : Bool) (cookie : Option Bytes) (first now : ℕ) (user : User) (k : Bytes)
      → IsValid st.sessions
      → api.update_group st.db id input ≡ (db, some updated)
      → In member updated.member_uids
      → ((name : Bytes) (found : User) → users name ≡ some found → found.username ≡ name)
      → (with_admin_auth users
          (handle_update_group api st (some id) (some input)).0.sessions
          is_get
          cookie
          first
          now).1
        ≡ admitted user k
      → user.username ≢ member
  unfolding handle_update_group
  handle_update_group-revoked input updated member users is_get cookie first now user k v done m
        names e =
      admitted_other users (revoke_all st.sessions updated.member_uids) is_get cookie first now user
        k member names (revoke_all-IsValid st.sessions updated.member_uids v)
        (revoke_all-IsRevoked st.sessions updated.member_uids member v m) (rw done at e)

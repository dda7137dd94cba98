-- ===== src/Tests/Handlers.antt =====
-- The LDAP handlers.
use mathlib.Core.List.{Mem}
use nano_ldap.Prelude.{ℕ, List, ◌≡◌, refl, true, false, [], ◌∷◌}
use nano_ldap.Text.{Bytes, codes, beq, to_lower, lower}
use nano_ldap.Limiter.Window.{WindowLimiter, new_limiter, allow_bind}
use nano_ldap.Ber.Reader.{children, int}
use nano_ldap.Dn.{username_from_dn}
use nano_ldap.Message.{Message}
use nano_ldap.Entry.{is_member_of}
use nano_ldap.Visible.{admin_names}
use nano_ldap.Connection.{Backend, ConnState, new_conn}
use nano_ldap.Server.{handle_message, handle_bind, handle_search, search_bound}
use nano_ldap.Server.Accepts.{IsOpen, AsksAs}
use nano_ldap.Server.Bind.{Outcome, handle_bind-Outcome}
use nano_ldap.Server.Search.{handle_search_no_user, search_bound_others}
use nano_ldap.Server.Reach.{conn_after, SameIdentity, conn_after_identity}
use nano_ldap.Server.Reach.Sound.{Round, run, IsSound, run-IsSound}
use nano_ldap.Tests.Data.{
  base_dn, user, guest, admin, users_group, admins_group, backend, broken, bind_message,
  find_message, everything,
}

abbrev limiter : WindowLimiter
limiter = new_limiter 10 3

abbrev conn : ConnState
conn = new_conn (codes "10.0.0.1")

abbrev env : Backend
env = backend (user ∷ guest ∷ []) (users_group ∷ [])

abbrev larger : Backend
larger = backend (user ∷ guest ∷ admin ∷ []) (users_group ∷ admins_group ∷ [])

abbrev bound_conn : ConnState
bound_conn = record conn { user = user; bound = true; had_successful_bind = true }

-- A bind with the password of `user`, and one with another password.
abbrev good : Message
good = bind_message (codes "uid=user,dc=example,dc=com") (codes "user")

abbrev wrong : Message
wrong = bind_message (codes "uid=user,dc=example,dc=com") (codes "guest")

abbrev round : ℕ → Message → Round
round now msg = record { base = base_dn; env = env; limiter = limiter; now = now; msg = msg }

-- A search, a bind that is refused, one that is not, and one too many.
abbrev rounds : List Round
rounds = round 1 find_message ∷ round 2 wrong ∷ round 3 good ∷ round 4 (bind_message [] []) ∷ []

run-IsSound_example :
    IsSound (λ r. Mem r rounds) (codes "10.0.0.1") (run 50 (new_conn (codes "10.0.0.1")) rounds)
run-IsSound_example = run-IsSound 50 (codes "10.0.0.1") rounds

run_user : (run 50 (new_conn (codes "10.0.0.1")) rounds).user ≡ user
unfolding run handle_message nano_ldap.Server.dispatch nano_ldap.Server.operation handle_bind
    handle_search allow_bind nano_ldap.Assoc.get nano_ldap.Assoc.revise
    nano_ldap.Server.bind_request int nano_ldap.Server.simple_bind nano_ldap.Server.finish_bind
    username_from_dn nano_ldap.Text.strip_suffix nano_ldap.Text.join nano_ldap.Text.split to_lower
    nano_ldap.Text.trim_space nano_ldap.Text.trim_right nano_ldap.Text.trim_left
    nano_ldap.Text.is_space lower nano_ldap.Text.cut beq
run_user = refl

-- The good bind is to succeed.
good_IsOpen : IsOpen limiter conn 1
unfolding allow_bind nano_ldap.Assoc.get nano_ldap.Assoc.revise
good_IsOpen = (refl, refl)

good_AsksAs : AsksAs base_dn env (children good.op) user
unfolding int username_from_dn beq nano_ldap.Text.strip_suffix nano_ldap.Text.join
    nano_ldap.Text.split to_lower nano_ldap.Text.trim_space nano_ldap.Text.trim_right
    nano_ldap.Text.trim_left nano_ldap.Text.is_space lower nano_ldap.Text.cut
good_AsksAs = (
  (refl, refl, refl),
  record { given = refl; username = codes "user"; names = refl; confirmed = refl; enabled = refl },
)

handle_bind-Outcome_example :
    Outcome base_dn env limiter conn 1 good (handle_bind base_dn env limiter conn 1 good).1
    × ((handle_bind base_dn env limiter conn 1 good).0 ≡ (allow_bind limiter conn.source_ip 1).0)
handle_bind-Outcome_example = handle_bind-Outcome base_dn env limiter conn 1 good

handle_search_no_user_example :
    handle_search base_dn env 50 conn 1 find_message
    ≡ handle_search base_dn broken 50 conn 1 find_message
handle_search_no_user_example =
    handle_search_no_user base_dn env broken 50 conn 1 find_message refl refl

user_is_other : is_member_of user admin_names ≡ false
unfolding is_member_of nano_ldap.Text.equal_fold beq to_lower lower
user_is_other = refl

search_bound_others_example :
    search_bound base_dn env user 8 everything ≡ search_bound base_dn larger user 8 everything
search_bound_others_example =
    search_bound_others base_dn env larger user 8 everything (user ∷ guest ∷ [])
      (user ∷ guest ∷ admin ∷ []) (users_group ∷ []) (users_group ∷ admins_group ∷ []) user_is_other
      refl refl refl refl refl (unfold beq in refl) (unfold beq in refl)

conn_after_identity_example :
    SameIdentity bound_conn (conn_after base_dn env 50 limiter bound_conn 2 (bind_message [] []))
conn_after_identity_example =
    conn_after_identity base_dn env 50 limiter bound_conn 2 (bind_message [] []) refl

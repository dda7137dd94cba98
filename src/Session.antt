-- ===== src/Session.antt =====
-- The web sessions: internal/session/store.go. The lock makes each method one step; its readings of
-- the clock and of the random source are arguments.
pub mod Hex
pub mod Invariant
pub mod Lookup
use nano_ldap.Prelude.{
  ℕ, suc, ◌+◌, ◌-◌, ◌/◌, ◌%◌, Bool, true, false, List, [], ◌∷◌, ltb, leb, if◌then◌else◌, Option,
  none, some, length, Result, ok, err,
}
use nano_ldap.Text.{Bytes, beq}
use nano_ldap.Assoc.{Map, get, put, revise}

pub record Session : Type 0 where
  pub id : Bytes
  pub username : Bytes
  pub expires_at : ℕ
  pub last_seen : ℕ

pub record Store : Type 0 where
  pub sessions : Map Session
  pub timeout : ℕ
  pub max : ℕ

pub data SessionError : Type 0 where
  session_limit random_failed : SessionError

abbrev pub new_store : ℕ → ℕ → Store
new_store timeout max = record { sessions = []; timeout = timeout; max = max }

abbrev hex_digit : ℕ → ℕ
hex_digit n = if ltb n 10 then b'0' + n else b'a' + n - 10

-- `hex.EncodeToString`.
unfoldable pub hex_encode : Bytes → Bytes
hex_encode [] = []
hex_encode (b ∷ s) = hex_digit (b / 16) ∷ hex_digit (b % 16) ∷ hex_encode s

abbrev pub unless_expired : ℕ → Bytes → Session → Option Session
unless_expired now id s = if ltb s.expires_at now then none else some s

-- The loop of `cleanupLocked`.
unfoldable pub cleanup : Store → ℕ → Store
cleanup st now = record st { sessions = revise (unless_expired now) st.sessions }

-- The session that `Create` makes of 32 random bytes.
abbrev pub new_session : Store → Bytes → Bytes → ℕ → Session
new_session st username token now = record {
  id = hex_encode token;
  username = username;
  expires_at = now + st.timeout;
  last_seen = now;
}

abbrev pub insert : Store → Session → Store
insert st s = record st { sessions = put s.id s st.sessions }

-- `Create` behind its clean-up. `none` for the token is an error of `rand.Read`.
unfoldable pub create_clean : Store → Bytes → Option Bytes → ℕ → Store × Result SessionError Session
create_clean st username token now =
    if leb st.max (length st.sessions) then (st, err session_limit) else elim token [
      | none ↦ (st, err random_failed)
      | some bytes ↦
          (insert st (new_session st username bytes now), ok (new_session st username bytes now))
    ]

unfoldable pub create : Store → Bytes → ℕ → Option Bytes → ℕ → Store × Result SessionError Session
unfolding create_clean cleanup
create st username first token now = create_clean (cleanup st first) username token now

abbrev pub touch : Store → Session → ℕ → Session
touch st s now = record s { last_seen = now; expires_at = now + st.timeout }

-- `Get` behind its clean-up; `none` is the result `(Session{}, false)`.
unfoldable pub get_clean : Store → Bytes → ℕ → Store × Option Session
get_clean st id now = elim (get id st.sessions) [
  | none ↦ (st, none)
  | some s ↦ (record st { sessions = put id (touch st s now) st.sessions }, some (touch st s now))
]

unfoldable pub get_session : Store → Bytes → ℕ → ℕ → Store × Option Session
unfolding get_clean cleanup
get_session st id first now = get_clean (cleanup st first) id now

abbrev pub unless_id : Bytes → Bytes → Session → Option Session
unless_id id j s = if beq j id then none else some s

-- `Delete`.
unfoldable pub delete_session : Store → Bytes → Store
delete_session st id = record st { sessions = revise (unless_id id) st.sessions }

abbrev pub unless_of_user : Bytes → Bytes → Session → Option Session
unless_of_user username j s = if beq s.username username then none else some s

unfoldable pub revoke_user : Store → Bytes → Store
revoke_user st username = record st { sessions = revise (unless_of_user username) st.sessions }

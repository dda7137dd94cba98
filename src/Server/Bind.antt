-- ===== src/Server/Bind.antt =====
-- Every branch of `handleBind`: when it succeeds, what it does to the connection, what it answers.
pub mod Requests
use nano_ldap.Prelude.{
  ℕ, ◌≡◌, ◌≢◌, refl, [], arith, Bool-cases, inl, inr, ◌<◌, length, if◌then◌else◌,
}
use nano_ldap.Text.{Bytes}
use nano_ldap.Ber.Reader.{children}
use nano_ldap.Limiter.Window.{WindowLimiter, allow_bind}
use nano_ldap.Entry.{User}
use nano_ldap.Message.{Message}
use nano_ldap.ResultCode
use nano_ldap.Connection.{Backend, ConnState, Reply, result_message}
use nano_ldap.Server.{handle_bind}
use nano_ldap.Server.Accepts.{AsksAnonymously, AsksAs, IsOpen, Accepts}
use nano_ldap.Server.Bind.Requests.{
  anonymous_conn, user_conn, Request, refuses, admits, admits_user, bind_request-Request,
}

-- A refusal is of a bind that is not to succeed: it leaves the connection as it is and carries a code
-- other than success. A success is of one that is, and sets the connection to what the request asks
-- for.
pub data Outcome (base : Bytes) (env : Backend) (limiter : WindowLimiter) (st : ConnState) (now : ℕ)
    (msg : Message) (r : Reply) : Type 0 where
  refused :
      (code : ℕ) (diagnostic : Bytes)
      → ¬ Accepts base env limiter st now msg
      → code ≢ ResultCode.success
      → length diagnostic < 100
      → r.conn ≡ st
      → r.response ≡ result_message msg.id 1 code diagnostic
      → Outcome base env limiter st now msg r
  anonymously :
      IsOpen limiter st now
      → AsksAnonymously (children msg.op)
      → r.conn ≡ anonymous_conn st
      → r.response ≡ result_message msg.id 1 ResultCode.success []
      → Outcome base env limiter st now msg r
  as_user :
      (user : User)
      → IsOpen limiter st now
      → AsksAs base env (children msg.op) user
      → r.conn ≡ user_conn st user
      → r.response ≡ result_message msg.id 1 ResultCode.success []
      → Outcome base env limiter st now msg r

Request-Outcome :
    (base : Bytes) (env : Backend) (limiter : WindowLimiter) (st : ConnState) (now : ℕ)
    (msg : Message) (r : Reply)
    → IsOpen limiter st now
    → Request base env st msg.id (children msg.op) r
    → Outcome base env limiter st now msg r
Request-Outcome base env limiter st now msg r opened
      (refuses code text unasked bad short e answer) =
    refused code text (λ h. unasked h.1) bad short e answer
Request-Outcome base env limiter st now msg r opened (admits asks e answer) =
    anonymously opened asks e answer
Request-Outcome base env limiter st now msg r opened (admits_user user asks e answer) =
    as_user user opened asks e answer

-- A bind is to succeed where the connection has had no successful bind, the limiter lets its
-- address try, the request is of version 3 with a simple password, and either its DN and its
-- password are both empty or the store confirms the password, under the name that the DN stands
-- for, as an enabled user's. `handleBind` refuses only a bind that is not to succeed: it then
-- leaves the connection as it is and answers with a code other than success and a diagnostic
-- shorter than 100 bytes. Else it answers with success and no diagnostic, all these conditions
-- hold, and the connection becomes anonymous where both are empty, that of the confirmed user
-- otherwise. It leaves the limiter as one `Allow` for the address does, and untouched where the
-- connection has had a successful bind.
pub handle_bind-Outcome :
    (base : Bytes) (env : Backend) (limiter : WindowLimiter) (st : ConnState) (now : ℕ)
    (msg : Message)
    → Outcome base env limiter st now msg (handle_bind base env limiter st now msg).1
      × ((handle_bind base env limiter st now msg).0
          ≡ (if st.had_successful_bind then limiter else (allow_bind limiter st.source_ip now).0))
unfolding handle_bind
handle_bind-Outcome base env limiter st now msg = elim (Bool-cases st.had_successful_bind) [
  | inl had ↦ simp had (
    refused _ _ (λ h. absurd (ground (arith, h.0.0))) (omega arith) (omega arith) refl refl,
    refl,
  )
  | inr fresh ↦ simp fresh (elim (Bool-cases (allow_bind limiter st.source_ip now).1) [
    | inl allowed ↦ rw allowed (
      Request-Outcome base env limiter st now msg _ (fresh, allowed)
          (bind_request-Request base env st msg.id (children msg.op)),
      refl,
    )
    | inr limited ↦ rw limited (
      refused _ _ (λ h. absurd (ground (arith, h.0.1))) (omega arith) (omega arith) refl refl,
      refl,
    )
  ])
]

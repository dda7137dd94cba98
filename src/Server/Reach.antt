-- ===== src/Server/Reach.antt =====
-- What one message leaves of who a connection acts for.
pub mod Sound
use mathlib.Core.Path.{subst}
use nano_ldap.Prelude.{
  ℕ, ◌≡◌, refl, arith, true, inl, inr, ◌⊎◌, ap, ◌∙◌, sym, Bool-cases, ◌==◌, ◌&&◌,
}
use nano_ldap.Text.{Bytes}
use nano_ldap.Ber.Reader.{Packet, class, tag, class_application}
use nano_ldap.Limiter.Window.{WindowLimiter}
use nano_ldap.Message.{Message}
use nano_ldap.Connection.{Backend, ConnState}
use nano_ldap.Server.{handle_bind, handle_search, handle_message, Operation, operation, dispatch}
use nano_ldap.Server.Accepts.{IsBind}
use nano_ldap.Server.Bind.{refused, anonymously, as_user, handle_bind-Outcome}

-- The connection after a message.
abbrev pub conn_after : Bytes → Backend → ℕ → WindowLimiter → ConnState → ℕ → Message → ConnState
conn_after base env rate limiter st now msg =
    (handle_message base env rate limiter st now msg).1.conn

-- Who the connection acts for.
pub record SameIdentity (st c : ConnState) : Type 0 where
  pub same_user : c.user ≡ st.user
  pub same_bound : c.bound ≡ st.bound
  pub same_anonymous : c.anonymous ≡ st.anonymous
  pub same_had : c.had_successful_bind ≡ st.had_successful_bind
  pub same_ip : c.source_ip ≡ st.source_ip

abbrev same_state : (st : ConnState) → SameIdentity st st
same_state st = record {
  same_user = refl;
  same_bound = refl;
  same_anonymous = refl;
  same_had = refl;
  same_ip = refl;
}

-- The operation is a bind request, or it leaves the identity alone.
dispatch_identity :
    (o : Operation) (base : Bytes) (env : Backend) (rate : ℕ) (limiter : WindowLimiter)
    (st : ConnState) (now : ℕ) (msg : Message)
    → (o ≡ Operation.bind) ⊎ SameIdentity st (dispatch o base env rate limiter st now msg).1.conn
unfolding dispatch handle_search
dispatch_identity Operation.bind base env rate limiter st now msg = inl refl
dispatch_identity Operation.unbind base env rate limiter st now msg = inr (same_state st)
dispatch_identity Operation.find base env rate limiter st now msg = inr (record {
  same_user = refl;
  same_bound = refl;
  same_anonymous = refl;
  same_had = refl;
  same_ip = refl;
})
dispatch_identity Operation.write base env rate limiter st now msg = inr (same_state st)
dispatch_identity Operation.other base env rate limiter st now msg = inr (same_state st)

operation-IsBind : (op : Packet) → operation op ≡ Operation.bind → IsBind op
unfolding operation
operation-IsBind op e = elim (Bool-cases (class op == class_application && tag op == 0)) [
  | inl h ↦ (ground arith, ground arith)
  | inr h ↦ absurd (ground arith)
]

pub identity :
    (base : Bytes) (env : Backend) (rate : ℕ) (limiter : WindowLimiter) (st : ConnState) (now : ℕ)
    (msg : Message)
    → (IsBind msg.op
        × (conn_after base env rate limiter st now msg
            ≡ (handle_bind base env limiter st now msg).1.conn))
      ⊎ SameIdentity st (conn_after base env rate limiter st now msg)
unfolding handle_message
identity base env rate limiter st now msg =
    elim (dispatch_identity (operation msg.op) base env rate limiter st now msg) [
      | inl e ↦ inl (
        operation-IsBind msg.op e,
        unfold dispatch in ap (λ o. (dispatch o base env rate limiter st now msg).1.conn) e,
      )
      | inr same ↦ inr same
    ]

-- After a successful bind no message changes who the connection acts for, whatever the store, base
-- DN and limiter are.
pub conn_after_identity :
    (base : Bytes) (env : Backend) (rate : ℕ) (limiter : WindowLimiter) (st : ConnState) (now : ℕ)
    (msg : Message)
    → st.had_successful_bind ≡ true
    → SameIdentity st (conn_after base env rate limiter st now msg)
conn_after_identity base env rate limiter st now msg had =
    elim (identity base env rate limiter st now msg) [
      | inl (_, e) ↦ elim (handle_bind-Outcome base env limiter st now msg).0 [
        | refused code diagnostic unasked bad short kept response ↦
            subst (SameIdentity st) (sym (e ∙ kept)) (same_state st)
        | anonymously opened asks kept response ↦ absurd (ground (arith, had, opened.0))
        | as_user user opened asks kept response ↦ absurd (ground (arith, had, opened.0))
      ]
      | inr same ↦ same
    ]

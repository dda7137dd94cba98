-- ===== src/Server/Reach/Sound.antt =====
-- Who a connection acts for after any messages, and which of them made it so.
use mathlib.Core.Path.{subst}
use mathlib.Core.List.{Mem, mem-cons_self, mem-cons_of_mem}
use nano_ldap.Prelude.{ℕ, ◌≡◌, refl, true, false, inl, inr, ◌∙◌, sym, List, [], ◌∷◌}
use nano_ldap.Text.{Bytes}
use nano_ldap.Ber.Reader.{children}
use nano_ldap.Limiter.Window.{WindowLimiter, allow_bind}
use nano_ldap.Message.{Message}
use nano_ldap.Connection.{Backend, ConnState, Reply, new_conn}
use nano_ldap.Server.Accepts.{IsBind, AsksAnonymously, AsksAs}
use nano_ldap.Server.Bind.{Outcome, refused, anonymously, as_user, handle_bind-Outcome}
use nano_ldap.Server.Reach.{conn_after, SameIdentity, identity}

-- One message, with the store, the base DN, the limiter and the clock that its handler finds.
pub record Round : Type 0 where
  pub base : Bytes
  pub env : Backend
  pub limiter : WindowLimiter
  pub now : ℕ
  pub msg : Message

abbrev pub after : ℕ → ConnState → Round → ConnState
after rate st r = conn_after r.base r.env rate r.limiter st r.now r.msg

-- The connection after the messages of some rounds, in their order.
unfoldable pub run : ℕ → ConnState → List Round → ConnState
run rate st [] = st
run rate st (r ∷ rs) = run rate (after rate st r) rs

-- The round is a bind request of an address that its limiter lets try.
abbrev pub BindsFrom : Bytes → Round → Type 0
BindsFrom ip r = IsBind r.msg.op × ((allow_bind r.limiter ip r.now).1 ≡ true)

-- A connection from an address acts for nobody; or it is anonymous, and one of the rounds that took
-- place is a bind request that asks for that; or it acts for a user, and one of the rounds that took
-- place is a bind request with a DN and a password that the store of that round confirms as an enabled
-- user's, the connection's.
pub data IsSound (Took : Round → Type 0) (ip : Bytes) (st : ConnState) : Type 0 where
  for_nobody :
      st.source_ip ≡ ip
      → st.bound ≡ false
      → st.anonymous ≡ false
      → st.had_successful_bind ≡ false
      → IsSound Took ip st
  for_anyone :
      (r : Round)
      → Took r
      → BindsFrom ip r
      → AsksAnonymously (children r.msg.op)
      → st.source_ip ≡ ip
      → st.bound ≡ true
      → st.anonymous ≡ true
      → st.had_successful_bind ≡ true
      → IsSound Took ip st
  for_user :
      (r : Round)
      → Took r
      → BindsFrom ip r
      → AsksAs r.base r.env (children r.msg.op) st.user
      → st.source_ip ≡ ip
      → st.bound ≡ true
      → st.anonymous ≡ false
      → st.had_successful_bind ≡ true
      → IsSound Took ip st

source_ip_lem :
    (Took : Round → Type 0) (ip : Bytes) (st : ConnState) → IsSound Took ip st → st.source_ip ≡ ip
source_ip_lem Took ip st (for_nobody from b a h) = from
source_ip_lem Took ip st (for_anyone r took binds asks from b a h) = from
source_ip_lem Took ip st (for_user r took binds asks from b a h) = from

SameIdentity-IsSound :
    (Took : Round → Type 0) (ip : Bytes) (st c : ConnState)
    → SameIdentity st c
    → IsSound Took ip st
    → IsSound Took ip c
SameIdentity-IsSound Took ip st c same (for_nobody from b a h) =
    for_nobody (same.same_ip ∙ from) (same.same_bound ∙ b) (same.same_anonymous ∙ a)
      (same.same_had ∙ h)
SameIdentity-IsSound Took ip st c same (for_anyone r took binds asks from b a h) =
    for_anyone r took binds asks (same.same_ip ∙ from) (same.same_bound ∙ b)
      (same.same_anonymous ∙ a) (same.same_had ∙ h)
SameIdentity-IsSound Took ip st c same (for_user r took binds asks from b a h) =
    for_user r took binds
      (subst (AsksAs r.base r.env (children r.msg.op)) (sym same.same_user) asks)
      (same.same_ip ∙ from) (same.same_bound ∙ b) (same.same_anonymous ∙ a) (same.same_had ∙ h)

Outcome-IsSound :
    (Took : Round → Type 0) (ip : Bytes) (st : ConnState) (r : Round) (reply : Reply)
    → Took r
    → IsBind r.msg.op
    → IsSound Took ip st
    → Outcome r.base r.env r.limiter st r.now r.msg reply
    → IsSound Took ip reply.conn
Outcome-IsSound Took ip st r reply took is_bind s
      (refused code diagnostic unasked bad short e response) =
    subst (IsSound Took ip) (sym e) s
Outcome-IsSound Took ip st r reply took is_bind s (anonymously opened asks e response) =
    let from = source_ip_lem Took ip st s in
    subst (IsSound Took ip) (sym e) (
      for_anyone r took
        (is_bind, subst (λ a. (allow_bind r.limiter a r.now).1 ≡ true) from opened.1) asks from refl
        refl refl)
Outcome-IsSound Took ip st r reply took is_bind s (as_user user opened asks e response) =
    let from = source_ip_lem Took ip st s in
    subst (IsSound Took ip) (sym e) (
      for_user r took (is_bind, subst (λ a. (allow_bind r.limiter a r.now).1 ≡ true) from opened.1)
        asks from refl refl refl)

-- A round that takes place keeps a connection sound.
pub after-IsSound :
    (Took : Round → Type 0) (ip : Bytes) (rate : ℕ) (st : ConnState) (r : Round)
    → Took r
    → IsSound Took ip st
    → IsSound Took ip (after rate st r)
after-IsSound Took ip rate st r took s =
    elim (identity r.base r.env rate r.limiter st r.now r.msg) [
      | inl (is_bind, e) ↦ subst (IsSound Took ip) (sym e) (
          Outcome-IsSound Took ip st r _ took is_bind s
            (handle_bind-Outcome r.base r.env r.limiter st r.now r.msg).0)
      | inr same ↦ SameIdentity-IsSound Took ip st _ same s
    ]

pub new_conn-IsSound : (Took : Round → Type 0) (ip : Bytes) → IsSound Took ip (new_conn ip)
new_conn-IsSound Took ip = for_nobody refl refl refl refl

run-keeps :
    (Took : Round → Type 0) (ip : Bytes) (rate : ℕ) (st : ConnState) (rs : List Round)
    → ((r : Round) → Mem r rs → Took r)
    → IsSound Took ip st
    → IsSound Took ip (run rate st rs)
unfolding run
run-keeps Took ip rate st [] took s = s
run-keeps Took ip rate st (r ∷ rs) took s =
    run-keeps Took ip rate (after rate st r) rs (λ v m. took v (mem-cons_of_mem r m))
      (after-IsSound Took ip rate st r (took r mem-cons_self) s)

-- After the messages of any rounds on a fresh connection from `ip`, each with any store, base DN,
-- limiter and clock: it is unbound, not anonymous and without a successful bind; or it is bound and
-- anonymous and has had a successful bind, and one of the rounds is a bind request that its limiter
-- lets `ip` try, of version 3 with an empty DN and an empty simple password; or it is bound, not
-- anonymous and has had a successful bind, and one of the rounds is a bind request that its limiter
-- lets `ip` try, of version 3 with a DN and a simple password that the store of that round
-- confirms, under the name that the DN stands for below the base DN of that round, as the
-- connection's user, who is enabled.
pub run-IsSound :
    (rate : ℕ) (ip : Bytes) (rounds : List Round)
    → IsSound (λ r. Mem r rounds) ip (run rate (new_conn ip) rounds)
run-IsSound rate ip rounds =
    run-keeps (λ r. Mem r rounds) ip rate (new_conn ip) rounds (λ r m. m) (new_conn-IsSound _ ip)

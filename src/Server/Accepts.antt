-- ===== src/Server/Accepts.antt =====
-- When a bind is to succeed: the condition that `handleBind` has to decide, written without its code.
use nano_ldap.Prelude.{ℕ, ◌≡◌, ◌⊎◌, true, false, ◌&&◌, [], some, ok}
use nano_ldap.Text.{Bytes, is_empty}
use nano_ldap.Dn.{username_from_dn}
use nano_ldap.Ber.Reader.{
  Packet, Packets, cons, class, tag, content, int, children, class_application, class_context,
}
use nano_ldap.Limiter.Window.{WindowLimiter, allow_bind}
use nano_ldap.Entry.{User}
use nano_ldap.Message.{Message}
use nano_ldap.Connection.{Backend, ConnState}

-- The operation is a bind request.
abbrev pub IsBind : Packet → Type 0
IsBind op = (class op ≡ class_application) × (tag op ≡ 0)

-- Version 3, a name, and a simple password; more children may follow.
abbrev pub IsSimpleBind : Packets → Type 0
IsSimpleBind (cons version (cons name (cons auth others))) =
    (int version ≡ ok 3) × (class auth ≡ class_context) × (tag auth ≡ 0)
IsSimpleBind _ = ⊥

abbrev pub dn_of : Packets → Bytes
dn_of (cons version (cons name others)) = content name
dn_of _ = []

abbrev pub password_of : Packets → Bytes
password_of (cons version (cons name (cons auth others))) = content auth
password_of _ = []

-- This store confirms this password for the user name that this DN stands for, not both are empty,
-- and the user is enabled.
pub record Authenticated (base : Bytes) (env : Backend) (dn password : Bytes) (user : User)
    : Type 0 where
  pub given : (is_empty dn && is_empty password) ≡ false
  pub username : Bytes
  pub names : username_from_dn base dn ≡ some username
  pub confirmed : env.authenticate_user username password ≡ some user
  pub enabled : user.disabled ≡ false

abbrev pub AsksAnonymously : Packets → Type 0
AsksAnonymously ps = IsSimpleBind ps × (dn_of ps ≡ []) × (password_of ps ≡ [])

-- The request itself has the DN and the password.
abbrev pub AsksAs : Bytes → Backend → Packets → User → Type 0
AsksAs base env ps user = IsSimpleBind ps × Authenticated base env (dn_of ps) (password_of ps) user

-- The connection has had no successful bind, and the limiter lets its address try.
abbrev pub IsOpen : WindowLimiter → ConnState → ℕ → Type 0
IsOpen limiter st now =
    (st.had_successful_bind ≡ false) × ((allow_bind limiter st.source_ip now).1 ≡ true)

-- The bind is to succeed.
abbrev pub Accepts : Bytes → Backend → WindowLimiter → ConnState → ℕ → Message → Type 0
Accepts base env limiter st now msg =
    IsOpen limiter st now
    × (AsksAnonymously (children msg.op) ⊎ ((user : User) × AsksAs base env (children msg.op) user))

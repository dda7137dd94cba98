-- ===== src/Connection.antt =====
-- The state of a connection and what a handler leaves, of internal/ldapserver/server.go, with the
-- audit events of internal/audit/audit.go.
use nano_ldap.Prelude.{ℕ, Bool, false, List, [], ◌∷◌, Option}
use nano_ldap.Text.{Bytes}
use nano_ldap.Ber.Writer.{ber_message}
use nano_ldap.Limiter.Counter.{RateCounter, fresh_counter}
use nano_ldap.Filter.{Attributes}
use nano_ldap.Entry.{User, Group}
use nano_ldap.Message.{result_packet}

-- What the handlers ask of internal/store and of the runtime. A Go error is `none`.
pub record Backend : Type 0 where
  pub authenticate_user : Bytes → Bytes → Option User
  pub list_users : Option (List User)
  pub list_groups : Option (List Group)
  pub visit : Attributes → Attributes

pub record ConnState : Type 0 where
  pub user : User
  pub bound : Bool
  pub anonymous : Bool
  pub had_successful_bind : Bool
  pub search_limiter : RateCounter
  pub source_ip : Bytes

abbrev pub no_user : User
no_user = record {
  id = 0;
  username = [];
  password_hash = [];
  display_name = [];
  disabled = false;
  created_at = 0;
  updated_at = 0;
  groups = [];
}

-- `&connState{sourceIP: …}`.
abbrev pub new_conn : Bytes → ConnState
new_conn ip = record {
  user = no_user;
  bound = false;
  anonymous = false;
  had_successful_bind = false;
  search_limiter = fresh_counter;
  source_ip = ip;
}

-- A call of `audit.LDAPBind`.
pub record BindEvent : Type 0 where
  pub source_ip : Bytes
  pub username : Bytes
  pub result : Bytes

-- What a handler leaves: the connection, the audit events, the response and the flag to close.
pub record Reply : Type 0 where
  pub conn : ConnState
  pub audit : List BindEvent
  pub response : Bytes
  pub close : Bool

unfoldable pub result_message : ℕ → ℕ → ℕ → Bytes → Bytes
result_message id app_tag code diagnostic =
    ber_message id (result_packet app_tag code [] diagnostic)

-- A bind response that keeps the connection open.
abbrev pub answer_bind : ConnState → ℕ → List BindEvent → ℕ → Bytes → Reply
answer_bind st id audit code diagnostic = record {
  conn = st;
  audit = audit;
  response = result_message id 1 code diagnostic;
  close = false;
}

abbrev pub event : ConnState → Bytes → Bytes → List BindEvent
event st username result =
    record { source_ip = st.source_ip; username = username; result = result } ∷ []

-- ===== src/Server.antt =====
-- The LDAP handlers of internal/ldapserver/server.go: `handleBind`, `handleSearch`, `handleMessage`.
-- The store, the clock and the order of Go maps come from outside a call and are its arguments.
pub mod Accepts
pub mod Bind
pub mod Search
pub mod Reach
use nano_ldap.Prelude.{
  ℕ, suc, ◌+◌, Bool, true, false, not, ◌&&◌, ◌||◌, List, [], ◌∷◌, ◌++◌, map, keep, ◌==◌,
  if◌then◌else◌, Option, none, some, Result, ok, err, concat,
}
use nano_ldap.Text.{Bytes, codes, is_empty}
use nano_ldap.Ber.Reader.{
  Packet, Packets, packet, nil, cons, class, tag, content, children, int, class_application,
  class_context,
}
use nano_ldap.Ber.Writer.{ber_message}
use nano_ldap.Dn.{username_from_dn, scope_base_object, scope_subtree}
use nano_ldap.Limiter.Counter.{RateCounter, fresh_counter, allow_search}
use nano_ldap.Limiter.Window.{WindowLimiter, allow_bind}
use nano_ldap.Filter.{Attributes, matches}
use nano_ldap.Entry.{User, Group, DirectoryEntry, root_dse, entry_within_scope}
use nano_ldap.Visible.{visible_entries}
use nano_ldap.ResultCode
use nano_ldap.Connection.{
  Backend, ConnState, no_user, new_conn, BindEvent, Reply, result_message, answer_bind, event,
}
use nano_ldap.Message.{
  Message, SearchRequest, result_packet, search_entry_packet, parse_search_request, to_option,
}

-- The end of `handleBind`: what `AuthenticateUser` said of a user name.
unfoldable pub finish_bind : ConnState → ℕ → Bytes → Option User → Reply
finish_bind st id username none =
    answer_bind st id (event st username (codes "invalid_credentials"))
      ResultCode.invalid_credentials (codes "invalid credentials")
finish_bind st id username (some user) =
    if user.disabled
    then answer_bind st id (event st username (codes "user_disabled"))
        ResultCode.invalid_credentials (codes "user is disabled")
    else answer_bind
        (record st { user = user; bound = true; anonymous = false; had_successful_bind = true }) id
        (event st username (codes "success")) ResultCode.success []

-- `handleBind` from the password on.
unfoldable pub simple_bind : Bytes → Backend → ConnState → ℕ → Bytes → Bytes → Reply
simple_bind base env st id dn password =
    if is_empty dn && is_empty password
    then answer_bind (record st { bound = true; anonymous = true; had_successful_bind = true }) id
        (event st [] (codes "anonymous")) ResultCode.success []
    else elim (username_from_dn base dn) [
      | none ↦
          answer_bind st id (event st dn (codes "invalid_dn")) ResultCode.invalid_dn_syntax
            (codes "invalid bind DN")
      | some username ↦ finish_bind st id username (env.authenticate_user username password)
    ]

abbrev pub is_version_3 : Option ℕ → Bool
is_version_3 none = false
is_version_3 (some version) = version == 3

-- `handleBind` behind the rate limit, on the children of the operation.
unfoldable pub bind_request : Bytes → Backend → ConnState → ℕ → Packets → Reply
bind_request base env st id (cons version (cons name (cons auth others))) =
    if not (is_version_3 (to_option (int version)))
    then answer_bind st id [] ResultCode.protocol_error (codes "unsupported LDAP version")
    else if not (class auth == class_context) || not (tag auth == 0)
    then answer_bind st id [] ResultCode.auth_method_not_supported
        (codes "only simple bind is supported")
    else simple_bind base env st id (content name) (content auth)
bind_request base env st id _ =
    answer_bind st id [] ResultCode.protocol_error (codes "invalid bind request")

abbrev pub rate_limited : ConnState → ℕ → Reply
rate_limited st id = record {
  conn = st;
  audit = event st [] (codes "rate_limited");
  response = result_message id 1 ResultCode.busy (codes "bind rate limit exceeded");
  close = true;
}

-- `handleBind`; the limiter is shared by all connections.
unfoldable pub handle_bind :
    Bytes → Backend → WindowLimiter → ConnState → ℕ → Message → WindowLimiter × Reply
handle_bind base env limiter st now msg =
    if st.had_successful_bind
    then (
      limiter,
      answer_bind st msg.id [] ResultCode.unwilling_to_perform
          (codes "only one successful bind is allowed per connection"),
    )
    else (let (limiter', allowed) = allow_bind limiter st.source_ip now in
        (
          limiter',
          (if allowed
              then bind_request base env st msg.id (children msg.op)
              else rate_limited st msg.id),
        ))

abbrev pub is_anonymous_root_dse : SearchRequest → Bool
is_anonymous_root_dse request =
    is_empty request.base_dn
    && (request.scope == scope_base_object || request.scope == scope_subtree)

abbrev pub search_done : ℕ → ℕ → Bytes → Bytes
search_done id code diagnostic = result_message id 5 code diagnostic

-- The loop over the visible entries: its two `continue`s.
unfoldable pub is_hit : SearchRequest → DirectoryEntry → Bool
is_hit request entry =
    entry_within_scope request.base_dn request.scope entry && matches entry.attrs request.filter

unfoldable pub entry_messages : Backend → ℕ → SearchRequest → List DirectoryEntry → List Bytes
entry_messages env id request entries =
    map (λ entry. ber_message id (search_entry_packet env.visit entry request.attributes))
      (keep (is_hit request) entries)

abbrev pub bound_entries :
    Backend → User → Bytes → Option (List User) → Option (List Group) → Option (List DirectoryEntry)
bound_entries env user base none groups = none
bound_entries env user base (some users) none = none
bound_entries env user base (some users) (some groups) =
    some (visible_entries user base users groups)

-- `handleSearch` for a connection that is not bound, or bound anonymously.
unfoldable pub search_anonymous : Bytes → Backend → ℕ → SearchRequest → Bytes
search_anonymous base env id request =
    if is_anonymous_root_dse request
    then concat (
        ber_message id (search_entry_packet env.visit (root_dse base) request.attributes)
        ∷ search_done id ResultCode.success []
        ∷ [])
    else search_done id ResultCode.insufficient_access_rights
        (codes "anonymous access is restricted to Root DSE")

unfoldable pub search_bound : Bytes → Backend → User → ℕ → SearchRequest → Bytes
search_bound base env user id request =
    elim (bound_entries env user base env.list_users env.list_groups) [
      | none ↦ search_done id ResultCode.busy (codes "directory unavailable")
      | some entries ↦
          concat
            (entry_messages env id request entries ++ search_done id ResultCode.success [] ∷ [])
    ]

-- `handleSearch` behind its rate limit.
unfoldable pub search_response : Bytes → Backend → ConnState → Message → Bytes
search_response base env st msg = elim (parse_search_request msg.op) [
  | none ↦ search_done msg.id ResultCode.protocol_error (codes "invalid search request")
  | some request ↦
      if not st.bound || st.anonymous
      then search_anonymous base env msg.id request
      else search_bound base env st.user msg.id request
]

unfoldable pub handle_search : Bytes → Backend → ℕ → ConnState → ℕ → Message → ConnState × Bytes
handle_search base env rate st now msg =
    let (counter, allowed) = allow_search st.search_limiter rate now in
    let st' = record st { search_limiter = counter } in
    (
      st',
      (if allowed
          then search_response base env st msg
          else search_done msg.id ResultCode.admin_limit_exceeded
              (codes "search rate limit exceeded")),
    )

abbrev pub is_write : ℕ → Bool
is_write t = t == 6 || t == 8 || t == 10 || t == 12

abbrev pub answer : ConnState → Bytes → Bool → Reply
answer st response close = record { conn = st; audit = []; response = response; close = close }

-- The case of the switch of `handleMessage` that an operation falls into.
pub data Operation : Type 0 where
  bind unbind find write other : Operation

unfoldable pub operation : Packet → Operation
operation op =
    if class op == class_application && tag op == 0
    then bind
    else if class op == class_application && tag op == 2
    then unbind
    else if class op == class_application && tag op == 3
    then find
    else if class op == class_application && is_write (tag op)
    then write
    else other

-- The bodies of the cases. The base DN and the search rate are those of the settings and of the
-- configuration at the call.
unfoldable pub dispatch :
    Operation
    → Bytes
    → Backend
    → ℕ
    → WindowLimiter
    → ConnState
    → ℕ
    → Message
    → WindowLimiter × Reply
dispatch bind base env rate limiter st now msg = handle_bind base env limiter st now msg
dispatch unbind base env rate limiter st now msg = (limiter, answer st [] true)
dispatch find base env rate limiter st now msg =
    let (st', response) = handle_search base env rate st now msg in
    (limiter, answer st' response false)
dispatch write base env rate limiter st now msg = (
  limiter,
  answer st
      (result_message msg.id (tag msg.op + 1) ResultCode.unwilling_to_perform
        (codes "directory is read-only"))
      false,
)
dispatch other base env rate limiter st now msg = (
  limiter,
  answer st (result_message msg.id 1 ResultCode.protocol_error (codes "unsupported LDAP operation"))
      false,
)

unfoldable pub handle_message :
    Bytes → Backend → ℕ → WindowLimiter → ConnState → ℕ → Message → WindowLimiter × Reply
handle_message base env rate limiter st now msg =
    dispatch (operation msg.op) base env rate limiter st now msg

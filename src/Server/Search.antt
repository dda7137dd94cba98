-- ===== src/Server/Search.antt =====
-- What a search reveals.
use nano_ldap.Prelude.{
  if◌then◌else◌, ℕ, ◌≡◌, true, false, not, ◌||◌, List, [], ◌∷◌, ◌++◌, arith, some, Option-cases,
  Bool-cases, inl, inr, ap, ap₂, ◌∙◌, sym, concat, map, keep,
}
use nano_ldap.Text.{Bytes, is_empty}
use nano_ldap.Limiter.Counter.{allow_search}
use nano_ldap.Entry.{User, Group, DirectoryEntry, is_member_of}
use nano_ldap.Text
use nano_ldap.Visible
use nano_ldap.Visible.{admin_names, visible_entries}
use nano_ldap.Visible.Access.{visible_entries_other}
use nano_ldap.Message.{Message, SearchRequest, parse_search_request}
use nano_ldap.ResultCode
use nano_ldap.Connection.{Backend, ConnState}
use nano_ldap.Server.{
  search_anonymous, search_bound, search_response, handle_search, search_done,
  is_anonymous_root_dse, entry_messages, bound_entries,
}

-- The connection has no identity: no bind yet, or an anonymous one.
abbrev pub HasNoUser : ConnState → Type 0
HasNoUser st = (not st.bound || st.anonymous) ≡ true

search_response_no_user :
    (base : Bytes) (env env' : Backend) (st : ConnState) (msg : Message)
    → HasNoUser st
    → env.visit ≡ env'.visit
    → search_response base env st msg ≡ search_response base env' st msg
unfolding search_response search_anonymous
search_response_no_user base env env' st msg h e =
    elim (Option-cases (parse_search_request msg.op)) [
      | inl bad ↦ rw (bad, search_response)
      | inr (request, good) ↦
          rw (good, search_response)
            (elim (Bool-cases (is_anonymous_root_dse request)) [
              | inl root ↦ rw (h, root, e)
              | inr other ↦ rw (h, other)
            ])
    ]

-- On a connection without a user, one that is not bound or is anonymous, a search tells nothing of
-- the store: the answer and the connection after it are the same whatever users and groups there
-- are, and whether the store works or not, as long as Go walks the maps in the same order.
pub handle_search_no_user :
    (base : Bytes) (env env' : Backend) (rate : ℕ) (st : ConnState) (now : ℕ) (msg : Message)
    → HasNoUser st
    → env.visit ≡ env'.visit
    → handle_search base env rate st now msg ≡ handle_search base env' rate st now msg
unfolding handle_search
handle_search_no_user base env env' rate st now msg h e =
    ap
      (λ response. (
        record st { search_limiter = (allow_search st.search_limiter rate now).0 },
        (if (allow_search st.search_limiter rate now).1
            then response
            else search_done msg.id ResultCode.admin_limit_exceeded
                (Text.codes "search rate limit exceeded")),
      ))
      (search_response_no_user base env env' st msg h e)

-- The users that carry this name, and the groups that this user is in by name.
abbrev pub own_users : User → List User → List User
own_users user = keep (λ candidate. Text.beq user.username candidate.username)

abbrev pub own_groups : User → List Group → List Group
own_groups user = keep (λ group. Visible.is_in (map Visible.group_name user.groups) group.name)

search_bound-some :
    (base : Bytes) (env : Backend) (user : User) (id : ℕ) (request : SearchRequest) (us : List User)
    (gs : List Group)
    → env.list_users ≡ some us
    → env.list_groups ≡ some gs
    → search_bound base env user id request
      ≡ concat (
          entry_messages env id request (visible_entries user base us gs)
          ++ search_done id ResultCode.success [] ∷ [])
unfolding search_bound
search_bound-some base env user id request us gs e f = ground (arith, entries)
  where
    entries :
        bound_entries env user base env.list_users env.list_groups
        ≡ some (visible_entries user base us gs)
    entries = ap₂ (bound_entries env user base) e f

entry_messages_visit :
    (env env' : Backend) (id : ℕ) (request : SearchRequest) (entries : List DirectoryEntry)
    → env.visit ≡ env'.visit
    → entry_messages env id request entries ≡ entry_messages env' id request entries
unfolding entry_messages
entry_messages_visit env env' id request entries e = rw e

-- A user who is no administrator learns nothing of the others: two directories that both list their
-- users and groups, and that agree on the users of his name and on the groups with the name of one
-- of his own, give him the same answer, as long as Go walks the maps in the same order.
pub search_bound_others :
    (base : Bytes) (env env' : Backend) (user : User) (id : ℕ) (request : SearchRequest)
    (us us' : List User) (gs gs' : List Group)
    → is_member_of user admin_names ≡ false
    → env.list_users ≡ some us
    → env.list_groups ≡ some gs
    → env'.list_users ≡ some us'
    → env'.list_groups ≡ some gs'
    → env.visit ≡ env'.visit
    → own_users user us ≡ own_users user us'
    → own_groups user gs ≡ own_groups user gs'
    → search_bound base env user id request ≡ search_bound base env' user id request
search_bound_others base env env' user id request us us' gs gs' other u g u' g' v same_us same_gs =
    search_bound-some base env user id request us gs u g
    ∙ ap
        (λ es.
          concat (entry_messages env id request es ++ search_done id ResultCode.success [] ∷ []))
        same
    ∙ ap (λ ms. concat (ms ++ search_done id ResultCode.success [] ∷ []))
        (entry_messages_visit env env' id request _ v)
    ∙ sym (search_bound-some base env' user id request us' gs' u' g')
  where
    same : visible_entries user base us gs ≡ visible_entries user base us' gs'
    same =
        visible_entries_other user base us gs other
        ∙ cc (same_us, same_gs)
        ∙ sym (visible_entries_other user base us' gs' other)

-- ===== src/Store/Integrity.antt =====
-- The constraints of the schema hold after every operation of the store, in any order.
use mathlib.Core.Path.{subst}
use nano_ldap.Prelude.{
  ℕ, ◌≡◌, refl, not, ◌==◌, ◌||◌, List, [], ◌∷◌, arith, Option, none, some, Option-cases, Bool-cases,
  inl, inr, Result-cases, ok, err, >>=-eq-ok,
}
use nano_ldap.Text.{Bytes, trim_space}
use nano_ldap.Accounts.{UserInput, GroupInput, unique_names}
use nano_ldap.Sql.{
  Tables, insert_base_dn, or_insert, upsert_base_dn, count_users, group_with_name, user_with_id,
  insert_user, insert_membership, insert_group, update_group_row,
}
use nano_ldap.Sql.Valid.{
  IsValid, insert_user-IsValid, insert_membership-IsValid, insert_group-IsValid,
}
use nano_ldap.Sql.Changes.{
  update_user_row-IsValid, delete_user_row-IsValid, delete_memberships-IsValid,
  update_group_row-IsValid, delete_group_row-IsValid,
}
use nano_ldap.Store.{
  StoreError, required, no_rows, constraint, unknown_group, hash_failed, bad_base_dn, Stored,
  or_error, is_blank, assign_groups, create_user_tx, committed, create_user, update_user_tx,
  update_user, delete_user, create_group, update_group, delete_group, set_base_dn, ensure_base_dn,
  insert_fallback, normalized, read_base_dn, updated_hash,
}
use nano_ldap.Store.Seed.{
  create_groups, create_users, then_users, seed_defaults, default_groups, default_users,
}

pub or_error-ok :
    {A : Type 0} (e : StoreError) (o : Option A) (a : A) → or_error e o ≡ ok a → o ≡ some a
or_error-ok e none a h = cc
or_error-ok e (some b) a h = cc

pub assign_groups-IsValid :
    (t : Tables) (id : ℕ) (names : List Bytes) (t' : Tables)
    → IsValid t
    → assign_groups t id names ≡ ok t'
    → IsValid t'
unfolding assign_groups
assign_groups-IsValid t id [] t' v e = subst IsValid (ground arith) v
assign_groups-IsValid t id (name ∷ names) t' v e =
    let (g, q, e₁) = >>=-eq-ok (or_error unknown_group (group_with_name t name)) _ e in
    let (t₁, r, e₂) = >>=-eq-ok (or_error constraint (insert_membership t id g.id)) _ e₁ in
    assign_groups-IsValid t₁ id names t'
      (insert_membership-IsValid t id g.id t₁ v
        (or_error-ok constraint (insert_membership t id g.id) t₁ r))
      e₂

committed-IsValid :
    (t : Tables) (r : Stored (Tables × ℕ))
    → IsValid t
    → ((t' : Tables) (id : ℕ) → r ≡ ok (t', id) → IsValid t')
    → IsValid (committed t r).0
committed-IsValid t (err e) v h = v
committed-IsValid t (ok (t', id)) v h = h t' id refl

create_user_tx-IsValid :
    (t : Tables) (now : ℕ) (hash : Bytes) (input : UserInput) (t' : Tables) (id : ℕ)
    → IsValid t
    → create_user_tx t now hash input ≡ ok (t', id)
    → IsValid t'
unfolding create_user_tx
create_user_tx-IsValid t now hash input t' id v e =
    let ((t₁, id₁), q, e₁) = >>=-eq-ok (or_error constraint (insert_user t _ hash _ _ now)) _ e in
    let (t₂, r, e₂) = >>=-eq-ok (assign_groups t₁ id₁ (unique_names input.group_names)) _ e₁ in
    let same : t₂ ≡ t' = ground arith in
    subst IsValid same (
      assign_groups-IsValid t₁ id₁ (unique_names input.group_names) t₂
        (insert_user-IsValid t _ hash _ _ now t₁ id₁ v (or_error-ok constraint _ (t₁, id₁) q)) r)

pub create_user-IsValid :
    (hash : Bytes → Option Bytes) (now : ℕ) (t : Tables) (input : UserInput)
    → IsValid t
    → IsValid (create_user hash now t input).0
unfolding create_user
create_user-IsValid hash now t input v =
    elim (Bool-cases (is_blank input.username || is_blank input.password)) [
      | inl blank ↦ rw blank v
      | inr given ↦ elim (Option-cases (hash input.password)) [
        | inl q ↦ rw (given, q) v
        | inr (h, q) ↦
            rw (given, q)
              (committed-IsValid t (create_user_tx t now h input) v
                (λ t' id e. create_user_tx-IsValid t now h input t' id v e))
      ]
    ]

update_user_tx-IsValid :
    (hash : Bytes → Option Bytes) (now : ℕ) (t : Tables) (id : ℕ) (input : UserInput) (t' : Tables)
    (id' : ℕ)
    → IsValid t
    → update_user_tx hash now t id input ≡ ok (t', id')
    → IsValid t'
unfolding update_user_tx
update_user_tx-IsValid hash now t id input t' id' v e =
    let (current, q, e₁) = >>=-eq-ok (or_error no_rows (user_with_id t id)) _ e in
    let (h, r, e₂) = >>=-eq-ok (updated_hash hash current.password_hash input.password) _ e₁ in
    let (t₂, w, e₃) = >>=-eq-ok (assign_groups _ id (unique_names input.group_names)) _ e₂ in
    let same : t₂ ≡ t' = ground arith in
    subst IsValid same (
      assign_groups-IsValid _ id (unique_names input.group_names) t₂
        (delete_memberships-IsValid _ id (update_user_row-IsValid t id _ h _ now v)) w)

pub update_user-IsValid :
    (hash : Bytes → Option Bytes) (now : ℕ) (t : Tables) (id : ℕ) (input : UserInput)
    → IsValid t
    → IsValid (update_user hash now t id input).0
unfolding update_user
update_user-IsValid hash now t id input v =
    committed-IsValid t (update_user_tx hash now t id input) v
      (λ t' id' e. update_user_tx-IsValid hash now t id input t' id' v e)

pub create_group-IsValid :
    (t : Tables) (input : GroupInput) → IsValid t → IsValid (create_group t input).0
unfolding create_group
create_group-IsValid t input v = elim (Bool-cases (is_blank input.name)) [
  | inl blank ↦ rw blank v
  | inr given ↦
      elim (Option-cases (insert_group t (trim_space input.name) (trim_space input.description))) [
        | inl q ↦ rw (given, q) v
        | inr ((t', id), q) ↦ rw (given, q) (insert_group-IsValid t _ _ t' id v q)
      ]
]

pub update_group-IsValid :
    (t : Tables) (id : ℕ) (input : GroupInput) → IsValid t → IsValid (update_group t id input).0
unfolding update_group
update_group-IsValid t id input v = elim (Bool-cases (is_blank input.name)) [
  | inl blank ↦ rw blank v
  | inr given ↦
      elim (Option-cases
        (update_group_row t id (trim_space input.name) (trim_space input.description))) [
          | inl q ↦ rw (given, q) v
          | inr (t', q) ↦ rw (given, q) (update_group_row-IsValid t id _ _ t' v q)
        ]
]

base_dn-IsValid :
    (t : Tables) (value : Option Bytes) → IsValid t → IsValid (record t { base_dn = value })
base_dn-IsValid t value v = record {
  user_ids = v.user_ids;
  usernames = v.usernames;
  users_below = v.users_below;
  group_ids = v.group_ids;
  names = v.names;
  groups_below = v.groups_below;
  keys = v.keys;
  references = v.references;
}

insert_base_dn-IsValid : (t : Tables) (n : Bytes) → IsValid t → IsValid (insert_base_dn t n)
unfolding insert_base_dn
insert_base_dn-IsValid t n v = unless_set t.base_dn
  where
    unless_set : (o : Option Bytes) → IsValid (or_insert t n o)
    unless_set none = base_dn-IsValid t (some n) v
    unless_set (some old) = v

set_base_dn-IsValid : (t : Tables) (s : Bytes) → IsValid t → IsValid (set_base_dn t s).0
unfolding set_base_dn upsert_base_dn
set_base_dn-IsValid t s v = elim (Result-cases (normalized s)) [
  | inl (n, q) ↦ rw (q, set_base_dn) (base_dn-IsValid t (some n) v)
  | inr (e, q) ↦ rw (q, set_base_dn) v
]

insert_fallback-IsValid : (t : Tables) (s : Bytes) → IsValid t → IsValid (insert_fallback t s).0
unfolding insert_fallback
insert_fallback-IsValid t s v = elim (Result-cases (normalized s)) [
  | inl (n, q) ↦ rw (q, insert_fallback) (insert_base_dn-IsValid t n v)
  | inr (e, q) ↦ rw (q, insert_fallback) v
]

ensure_base_dn-IsValid : (t : Tables) (s : Bytes) → IsValid t → IsValid (ensure_base_dn t s).0
unfolding ensure_base_dn
ensure_base_dn-IsValid t s v = by_result (read_base_dn t) refl
  where
    by_result : (r : Stored Bytes) → read_base_dn t ≡ r → IsValid (ensure_base_dn t s).0
    by_result (ok n) q = rw (q, ensure_base_dn) v
    by_result (err no_rows) q = rw (q, ensure_base_dn) (insert_fallback-IsValid t s v)
    by_result (err required) q = rw (q, ensure_base_dn) v
    by_result (err constraint) q = rw (q, ensure_base_dn) v
    by_result (err unknown_group) q = rw (q, ensure_base_dn) v
    by_result (err hash_failed) q = rw (q, ensure_base_dn) v
    by_result (err (bad_base_dn e)) q = rw (q, ensure_base_dn) v

create_groups-IsValid :
    (t : Tables) (inputs : List GroupInput) → IsValid t → IsValid (create_groups t inputs).0
unfolding create_groups
create_groups-IsValid t [] v = v
create_groups-IsValid t (input ∷ inputs) v = elim (Result-cases (create_group t input).1) [
  | inl (g, q) ↦
      rw (q, create_groups)
        (create_groups-IsValid (create_group t input).0 inputs (create_group-IsValid t input v))
  | inr (e, q) ↦ rw (q, create_groups) (create_group-IsValid t input v)
]

create_users-IsValid :
    (hash : Bytes → Option Bytes) (now : ℕ) (t : Tables) (inputs : List UserInput)
    → IsValid t
    → IsValid (create_users hash now t inputs).0
unfolding create_users
create_users-IsValid hash now t [] v = v
create_users-IsValid hash now t (input ∷ inputs) v =
    elim (Result-cases (create_user hash now t input).1) [
      | inl (g, q) ↦
          rw (q, create_users)
            (create_users-IsValid hash now (create_user hash now t input).0 inputs
              (create_user-IsValid hash now t input v))
      | inr (e, q) ↦ rw (q, create_users) (create_user-IsValid hash now t input v)
    ]

then_users-IsValid :
    (hash : Bytes → Option Bytes) (now : ℕ) (r : Tables × Stored (Unit {0}))
    → IsValid r.0
    → IsValid (then_users hash now r).0
then_users-IsValid hash now (t, err e) v = v
then_users-IsValid hash now (t, ok _) v = create_users-IsValid hash now t default_users v

seed_defaults-IsValid :
    (hash : Bytes → Option Bytes) (now : ℕ) (t : Tables)
    → IsValid t
    → IsValid (seed_defaults hash now t).0
unfolding seed_defaults
seed_defaults-IsValid hash now t v = elim (Bool-cases (not (count_users t == 0))) [
  | inl some_users ↦ rw some_users v
  | inr empty ↦ rw empty (
      then_users-IsValid hash now (create_groups t default_groups)
        (create_groups-IsValid t default_groups v))
]

-- A call of a method of the store that writes.
pub data Call : Type 0 where
  creates_user : (Bytes → Option Bytes) → ℕ → UserInput → Call
  updates_user : (Bytes → Option Bytes) → ℕ → ℕ → UserInput → Call
  deletes_user : ℕ → Call
  creates_group : GroupInput → Call
  updates_group : ℕ → GroupInput → Call
  deletes_group : ℕ → Call
  sets_base_dn : Bytes → Call
  ensures_base_dn : Bytes → Call
  seeds : (Bytes → Option Bytes) → ℕ → Call

abbrev pub perform : Tables → Call → Tables
perform t (creates_user hash now input) = (create_user hash now t input).0
perform t (updates_user hash now id input) = (update_user hash now t id input).0
perform t (deletes_user id) = delete_user t id
perform t (creates_group input) = (create_group t input).0
perform t (updates_group id input) = (update_group t id input).0
perform t (deletes_group id) = delete_group t id
perform t (sets_base_dn s) = (set_base_dn t s).0
perform t (ensures_base_dn s) = (ensure_base_dn t s).0
perform t (seeds hash now) = (seed_defaults hash now t).0

unfoldable pub perform_all : Tables → List Call → Tables
perform_all t [] = t
perform_all t (c ∷ cs) = perform_all (perform t c) cs

pub perform-IsValid : (t : Tables) (c : Call) → IsValid t → IsValid (perform t c)
unfolding delete_user delete_group
perform-IsValid t (creates_user hash now input) v = create_user-IsValid hash now t input v
perform-IsValid t (updates_user hash now id input) v = update_user-IsValid hash now t id input v
perform-IsValid t (deletes_user id) v = delete_user_row-IsValid t id v
perform-IsValid t (creates_group input) v = create_group-IsValid t input v
perform-IsValid t (updates_group id input) v = update_group-IsValid t id input v
perform-IsValid t (deletes_group id) v = delete_group_row-IsValid t id v
perform-IsValid t (sets_base_dn s) v = set_base_dn-IsValid t s v
perform-IsValid t (ensures_base_dn s) v = ensure_base_dn-IsValid t s v
perform-IsValid t (seeds hash now) v = seed_defaults-IsValid hash now t v

-- Any sequence of calls of the store's methods, those that fail included, keeps its tables valid:
-- no id, user name, group name or membership stands twice, the sequences are ahead of the ids, and
-- every membership refers to a user and to a group that are there.
pub perform_all-IsValid : (t : Tables) (cs : List Call) → IsValid t → IsValid (perform_all t cs)
unfolding perform_all
perform_all-IsValid t [] v = v
perform_all-IsValid t (c ∷ cs) v = perform_all-IsValid (perform t c) cs (perform-IsValid t c v)

-- ===== src/Store/Creation.antt =====
-- When `CreateUser` succeeds, what it then has made, and that it changes nothing otherwise.
use mathlib.Core.Path.{subst}
use nano_ldap.Prelude.{
  ℕ, ◌<◌, ◌≡◌, refl, Bool, true, false, not, ◌&&◌, ◌||◌, List, [], ◌∷◌, ◌++◌, any, All, arith,
  Option, some, is_some, Option-cases, Bool-cases, ◌⊎◌, inl, inr, ok, err, ◌>>=◌, >>=-eq-ok, ◌∙◌,
  sym, ap,
}
use nano_ldap.Text.{Bytes, beq, trim_space}
use nano_ldap.Text.Case.{beq_self}
use nano_ldap.Accounts.{UserInput, unique_names, display_or_username}
use nano_ldap.Accounts.Names.{unique_names-AreUnique}
use nano_ldap.Entry.{User, Group}
use nano_ldap.Sql.{
  UserRow, Tables, first, has_id, has_username, user_with_id, user_with_name, insert_user, new_user,
  add_user,
}
use nano_ldap.Sql.Rows.{any-append, first-append, first_none}
use nano_ldap.Sql.Valid.{IsValid, insert_user-IsValid}
use nano_ldap.Store.{
  StoreError, constraint, Stored, is_blank, bool_int, assign_groups, scan_user, scanned_user,
  get_user_by_id, get_user_by_username, create_user_tx, committed, create_user,
}
use nano_ldap.Store.Assign.{assign_groups-frame, assigned_names, no_memberships}
use nano_ldap.Store.Total.{is_ok, all_groups_exist, AreUnique-Differ, IsFresh, assign_groups-is_ok}
use nano_ldap.Store.Users.{committed-ok, ok_eq, bool_int-test}

-- No row has the id that the sequence gives next.
next_is_free : (xs : List UserRow) (n : ℕ) → All (λ r. r.id < n) xs → any (has_id n) xs ≡ false
next_is_free [] n h = refl
next_is_free (x ∷ xs) n (a, h) = ground (arith, next_is_free xs n h)

is_ok-bind :
    (r : Stored Tables) (n : ℕ)
    → is_ok {E = StoreError} {A = Tables × ℕ} (r >>= λ t₂. ok (t₂, n)) ≡ is_ok r
is_ok-bind (ok t₂) n = refl
is_ok-bind (err e) n = refl

find_last :
    (p : UserRow → Bool) (xs : List UserRow) (x : UserRow)
    → any p xs ≡ false
    → p x ≡ true
    → first p (xs ++ x ∷ []) ≡ some x
find_last p xs x a b = ground (arith, first-append p xs (x ∷ []), first_none p xs)

module _ (now : ℕ) (t : Tables) (h : Bytes) (input : UserInput) where
  abbrev row : UserRow
  row =
      new_user t.next_user (trim_space input.username) h
        (display_or_username input.display_name input.username) (bool_int input.disabled) now

  tx_free :
      any (has_username (trim_space input.username)) t.users ≡ false
      → create_user_tx t now h input ≡ (
          assign_groups (add_user t row) t.next_user (unique_names input.group_names) >>= λ t₂.
          ok (t₂, t.next_user))
  unfolding create_user_tx insert_user
  tx_free e = rw e refl

  tx_taken :
      any (has_username (trim_space input.username)) t.users ≡ true
      → create_user_tx t now h input ≡ err constraint
  unfolding create_user_tx insert_user
  tx_taken e = rw e refl

  tx_new_names : (n : Bytes) → IsValid t → IsFresh (add_user t row) t.next_user n
  tx_new_names n v g q =
      no_memberships t t.next_user g.id v (next_is_free t.users t.next_user v.users_below)

  row-IsValid :
      any (has_username (trim_space input.username)) t.users ≡ false
      → IsValid t
      → IsValid (add_user t row)
  unfolding insert_user
  row-IsValid e v =
      insert_user-IsValid t (trim_space input.username) h
        (display_or_username input.display_name input.username) (bool_int input.disabled) now
        (add_user t row) t.next_user v (rw e refl)

  row_exists : any (has_id t.next_user) (add_user t row).users ≡ true
  row_exists = any-append (has_id t.next_user) t.users (row ∷ []) ∙ ground arith

  All-IsFresh : (ns : List Bytes) → IsValid t → All (IsFresh (add_user t row) t.next_user) ns
  All-IsFresh [] v = tt
  All-IsFresh (n ∷ ns) v = (tx_new_names n v, All-IsFresh ns v)

  -- The transaction succeeds exactly when the name is free and every group exists.
  tx-is_ok :
      IsValid t
      → is_ok (create_user_tx t now h input) ≡ (
          not (any (has_username (trim_space input.username)) t.users)
          && all_groups_exist t.groups (unique_names input.group_names))
  tx-is_ok v = elim (Bool-cases (any (has_username (trim_space input.username)) t.users)) [
    | inl taken ↦ ap is_ok (tx_taken taken) ∙ rw taken refl
    | inr free ↦
        ap is_ok (tx_free free)
        ∙ is_ok-bind (assign_groups (add_user t row) t.next_user (unique_names input.group_names))
            t.next_user
        ∙ assign_groups-is_ok (add_user t row) t.next_user (unique_names input.group_names)
            (row-IsValid free v) row_exists
            (AreUnique-Differ (unique_names input.group_names)
              (unique_names-AreUnique input.group_names []).0)
            (All-IsFresh (unique_names input.group_names) v)
        ∙ rw free refl
  ]

  tx-ok :
      (t' : Tables) (id : ℕ)
      → create_user_tx t now h input ≡ ok (t', id)
      → (id ≡ t.next_user)
        × (any (has_username (trim_space input.username)) t.users ≡ false)
        × (assign_groups (add_user t row) t.next_user (unique_names input.group_names) ≡ ok t')
  tx-ok t' id e = elim (Bool-cases (any (has_username (trim_space input.username)) t.users)) [
    | inl taken ↦ absurd (ground (arith, tx_taken taken))
    | inr free ↦
        let (t₂, q, w) =
          >>=-eq-ok (assign_groups (add_user t row) t.next_user (unique_names input.group_names)) _
            (sym (tx_free free) ∙ e) in
        let same : t₂ ≡ t' = ground arith in (ground arith, free, q ∙ ap ok same)
  ]

  read_back :
      (t' : Tables)
      → IsValid t
      → assign_groups (add_user t row) t.next_user (unique_names input.group_names) ≡ ok t'
      → get_user_by_id t' t.next_user ≡ ok (scan_user t' row)
  unfolding get_user_by_id user_with_id
  read_back t' v e = ap (scanned_user t') (
      ap (λ x. first (has_id t.next_user) x.users)
        (assign_groups-frame (add_user t row) t.next_user (unique_names input.group_names) t' e)
      ∙ find_last (has_id t.next_user) t.users row (next_is_free t.users t.next_user v.users_below)
          (ground arith))

  committed-tx :
      (r : Stored (Tables × ℕ))
      → IsValid t
      → create_user_tx t now h input ≡ r
      → (is_ok (committed t r).1 ≡ is_ok r)
        × ((is_ok (committed t r).1 ≡ true) ⊎ ((committed t r).0 ≡ t))
  committed-tx (err e) v q = (refl, inr refl)
  committed-tx (ok (t', id)) v q =
      let (same, free, assigned) = tx-ok t' id q in
      let read : get_user_by_id t' id ≡ ok (scan_user t' row) =
        ap (get_user_by_id t') same ∙ read_back t' v assigned in
      (ap is_ok read, inl (ap is_ok read))

-- The condition on which `CreateUser` succeeds.
abbrev pub is_acceptable : (Bytes → Option Bytes) → Tables → UserInput → Bool
is_acceptable hash t input =
    not (is_blank input.username || is_blank input.password)
    && (is_some (hash input.password)
        && (not (any (has_username (trim_space input.username)) t.users)
            && all_groups_exist t.groups (unique_names input.group_names)))

-- In valid tables `CreateUser` succeeds exactly where the name and the password are not blank, the
-- hash is made, no user has the trimmed name, and every group that the form names exists; and where
-- it fails it leaves the tables as they were.
pub create_user-is_ok :
    (hash : Bytes → Option Bytes) (now : ℕ) (t : Tables) (input : UserInput)
    → IsValid t
    → (is_ok (create_user hash now t input).1 ≡ is_acceptable hash t input)
      × ((is_ok (create_user hash now t input).1 ≡ true) ⊎ ((create_user hash now t input).0 ≡ t))
unfolding create_user
create_user-is_ok hash now t input v =
    elim (Bool-cases (is_blank input.username || is_blank input.password)) [
      | inl blank ↦ rw blank (refl, inr refl)
      | inr given ↦ elim (Option-cases (hash input.password)) [
        | inl q ↦ rw (given, q) (refl, inr refl)
        | inr (h, q) ↦
            let (a, b) = committed-tx now t h input (create_user_tx t now h input) v refl in
            rw (given, q) (a ∙ tx-is_ok now t h input v, b)
      ]
    ]

-- The user that `CreateUser` returns, and that the store then has under the name.
pub record Created (hash : Bytes → Option Bytes) (input : UserInput) (t' : Tables) (u : User)
    (n : Bytes) : Type 0 where
  pub hashed : hash input.password ≡ some u.password_hash
  pub named : u.username ≡ trim_space input.username
  pub displayed : u.display_name ≡ display_or_username input.display_name input.username
  pub same_disabled : u.disabled ≡ input.disabled
  pub groups :
      any (λ (g : Group). beq g.name n) u.groups
      ≡ any (λ m. beq m n) (unique_names input.group_names)
  pub stored : get_user_by_username t' (trim_space input.username) ≡ ok u

module _ (now : ℕ) (t : Tables) (h : Bytes) (input : UserInput) (t' : Tables) where
  -- The lookup by name finds the new row.
  named_back :
      any (has_username (trim_space input.username)) t.users ≡ false
      → assign_groups (add_user t (row now t h input)) t.next_user (unique_names input.group_names)
        ≡ ok t'
      → get_user_by_username t' (trim_space input.username) ≡ ok (scan_user t' (row now t h input))
  unfolding get_user_by_username user_with_name
  named_back free e = ap (scanned_user t') (
      ap (λ x. first (has_username (trim_space input.username)) x.users)
        (assign_groups-frame (add_user t (row now t h input)) t.next_user
          (unique_names input.group_names) t' e)
      ∙ find_last (has_username (trim_space input.username)) t.users (row now t h input) free
          (beq_self (trim_space input.username)))

  scan-Created :
      (hash : Bytes → Option Bytes) (n : Bytes)
      → IsValid t
      → hash input.password ≡ some h
      → any (has_username (trim_space input.username)) t.users ≡ false
      → assign_groups (add_user t (row now t h input)) t.next_user (unique_names input.group_names)
        ≡ ok t'
      → Created hash input t' (scan_user t' (row now t h input)) n
  unfolding scan_user
  scan-Created hash n v hashed free assigned = record {
    hashed = hashed;
    named = refl;
    displayed = refl;
    same_disabled = bool_int-test input.disabled;
    groups =
        assigned_names (add_user t (row now t h input)) t.next_user (unique_names input.group_names)
          t' n (row-IsValid now t h input free v)
          (λ k. no_memberships t t.next_user k v (next_is_free t.users t.next_user v.users_below))
          assigned;
    stored = named_back free assigned;
  }

-- In valid tables, the user that `CreateUser` returns has the hash of the password, the trimmed
-- name, the display name that stands for it, the flag, and, for any name, a group of that name
-- exactly where the input, with blanks and repetitions left out, names it; and a lookup by the
-- trimmed name then finds that user.
pub create_user-Created :
    (hash : Bytes → Option Bytes) (now : ℕ) (t : Tables) (input : UserInput) (t' : Tables)
    (u : User) (n : Bytes)
    → IsValid t
    → create_user hash now t input ≡ (t', ok u)
    → Created hash input t' u n
unfolding create_user
create_user-Created hash now t input t' u n v e =
    elim (Bool-cases (is_blank input.username || is_blank input.password)) [
      | inl blank ↦ absurd (ground arith)
      | inr given ↦ elim (Option-cases (hash input.password)) [
        | inl q ↦ absurd (ground arith)
        | inr (h, q) ↦
            let done : committed t (create_user_tx t now h input) ≡ (t', ok u) =
              rw (given, q) at e in
            let (id, made, read) = committed-ok t (create_user_tx t now h input) t' u done in
            let (same, free, assigned) = tx-ok now t h input t' id made in
            subst (λ x. Created hash input t' x n)
              (ok_eq _ u (
                sym (read_back now t h input t' v assigned)
                ∙ ap (get_user_by_id t') (sym same)
                ∙ read))
              (scan-Created now t h input t' hash n v q free assigned)
      ]
    ]

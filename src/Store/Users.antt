-- ===== src/Store/Users.antt =====
-- What `UpdateUser` does to the user, and to the others.
use mathlib.Core.Path.{subst}
use nano_ldap.Prelude.{
  ℕ, ◌≡◌, ◌≢◌, refl, Bool, true, false, not, ◌&&◌, ◌||◌, List, [], ◌∷◌, map, keep, any, arith, ◌==◌,
  Option, none, some, ok, err, >>=-eq-ok, ◌∙◌, sym, ap,
}
use nano_ldap.Text.{Bytes, beq}
use nano_ldap.Entry.{User, Group}
use nano_ldap.Accounts.{UserInput, unique_names}
use nano_ldap.Sql.{
  UserRow, GroupRow, Membership, Tables, first, has_id, is_membership, user_with_id, set_user,
  update_user_row, delete_memberships, groups_of, order_by,
}
use nano_ldap.Sql.Rows.{any-keep, any_ext, first_sound, first-map-some, first-map_self, keep_ext}
use nano_ldap.Sql.Valid.{IsValid}
use nano_ldap.Sql.Changes.{update_user_row-IsValid, delete_memberships-IsValid}
use nano_ldap.Store.{
  no_rows, Stored, or_error, bool_int, assign_groups, scan_user, scanned_user, group_of_row,
  user_groups, get_user_by_id, committed, updated_hash, updated_display, update_user_tx,
  update_user,
}
use nano_ldap.Store.Integrity.{or_error-ok}
use nano_ldap.Store.Assign.{assign_groups-frame, any-assign_groups, assigned_names}

pub committed-ok :
    (t : Tables) (r : Stored (Tables × ℕ)) (t' : Tables) (u : User)
    → committed t r ≡ (t', ok u)
    → (id : ℕ) × (r ≡ ok (t', id)) × (get_user_by_id t' id ≡ ok u)
committed-ok t (err e) t' u h = absurd (ground arith)
committed-ok t (ok (t₂, id)) t' u h =
    let same : t₂ ≡ t' = ground arith in
    (id, ap (λ x. ok (x, id)) same, ap (λ x. get_user_by_id x id) (sym same) ∙ ap (λ x. x.1) h)

pub ok_eq : (a b : User) → ◌≡◌ {A = Stored User} (ok a) (ok b) → a ≡ b
ok_eq a b e = cc

pub bool_int-test : (b : Bool) → (bool_int b == 1) ≡ b
bool_int-test true = refl
bool_int-test false = refl

set_user_self :
    (id : ℕ) (display hash : Bytes) (disabled now : ℕ) (r : UserRow)
    → (r.id == id) ≡ false
    → set_user id display hash disabled now r ≡ r
set_user_self id display hash disabled now r e = ground arith

test_eq : (a b : ℕ) → (a == b) ≡ true → a ≡ b
test_eq a b e = ground arith

only_left : (a b c : Bool) → b ≡ false → (a || (b && c)) ≡ a
only_left a b c h = ground arith

-- The tables before the groups are assigned again.
abbrev cleared : Tables → ℕ → UserInput → UserRow → Bytes → ℕ → Tables
cleared t id input r h now =
    delete_memberships
      (update_user_row t id (updated_display r.display_name input.display_name) h
        (bool_int input.disabled) now)
      id

update_user_tx-ok :
    (hash : Bytes → Option Bytes) (now : ℕ) (t : Tables) (id : ℕ) (input : UserInput) (t' : Tables)
    (id' : ℕ)
    → update_user_tx hash now t id input ≡ ok (t', id')
    → (r : UserRow) × (h : Bytes) × (user_with_id t id ≡ some r)
      × (updated_hash hash r.password_hash input.password ≡ ok h)
      × (assign_groups (cleared t id input r h now) id (unique_names input.group_names) ≡ ok t')
      × (id' ≡ id)
unfolding update_user_tx
update_user_tx-ok hash now t id input t' id' e =
    let (r, q, e₁) = >>=-eq-ok (or_error no_rows (user_with_id t id)) _ e in
    let (h, w, e₂) = >>=-eq-ok (updated_hash hash r.password_hash input.password) _ e₁ in
    let (t₂, x, e₃) =
      >>=-eq-ok (assign_groups (cleared t id input r h now) id (unique_names input.group_names)) _
        e₂ in
    let same : t₂ ≡ t' = ground arith in
    (r, h, or_error-ok no_rows (user_with_id t id) r q, w, x ∙ ap ok same, ground arith)

-- The record that the store has of a user after `UpdateUser`.
pub record Updated (hash : Bytes → Option Bytes) (t : Tables) (id : ℕ) (input : UserInput)
    (u : User) (n : Bytes) : Type 0 where
  pub row : UserRow
  pub found : user_with_id t id ≡ some row
  pub same_id : u.id ≡ id
  pub same_username : u.username ≡ row.username
  pub new_display : u.display_name ≡ updated_display row.display_name input.display_name
  pub new_hash : updated_hash hash row.password_hash input.password ≡ ok u.password_hash
  pub new_disabled : u.disabled ≡ input.disabled
  pub new_groups :
      any (λ (g : Group). beq g.name n) u.groups
      ≡ any (λ m. beq m n) (unique_names input.group_names)

module _ (hash : Bytes → Option Bytes) (now : ℕ) (t : Tables) (id : ℕ) (input : UserInput)
    (r : UserRow) (h : Bytes) (t' : Tables)
    (assigned : assign_groups (cleared t id input r h now) id (unique_names input.group_names)
      ≡ ok t') where
  cleared_users :
      t'.users
      ≡ map
          (set_user id
            (updated_display r.display_name input.display_name)
            h
            (bool_int input.disabled)
            now)
          t.users
  unfolding update_user_row delete_memberships
  cleared_users =
      ap (λ x. x.users) (assign_groups-frame _ id (unique_names input.group_names) t' assigned)

  no_groups_left :
      (k : ℕ) → any (is_membership id k) (cleared t id input r h now).user_groups ≡ false
  unfolding update_user_row delete_memberships
  no_groups_left k = any-keep (is_membership id k) _ t.user_groups ∙ never t.user_groups
    where
      never :
          (ms : List Membership)
          → any (λ m. not (m.user_id == id) && is_membership id k m) ms ≡ false
      never [] = refl
      never (m ∷ ms) = ground (arith, never ms)

  others_memberships :
      (v k : ℕ)
      → (v == id) ≡ false
      → any (is_membership v k) t'.user_groups ≡ any (is_membership v k) t.user_groups
  unfolding update_user_row delete_memberships
  others_memberships v k other =
      any-assign_groups (cleared t id input r h now) id (unique_names input.group_names) t' v k
        assigned
      ∙ only_left (any (is_membership v k) (cleared t id input r h now).user_groups) (id == v) _
          (ground arith)
      ∙ any-keep (is_membership v k) (λ m. not (m.user_id == id)) t.user_groups
      ∙ any_ext (λ m. not (m.user_id == id) && is_membership v k m) (is_membership v k)
          t.user_groups (λ m. ground arith)

  others_groups : (v : ℕ) → (v == id) ≡ false → user_groups t' v ≡ user_groups t v
  unfolding user_groups groups_of update_user_row delete_memberships
  others_groups v other =
      ap (λ gs. map group_of_row (order_by (λ (g : GroupRow). g.name) gs))
        (ap (keep (λ (g : GroupRow). any (is_membership v g.id) t'.user_groups)) (
            ap (λ x. x.groups)
              (assign_groups-frame _ id (unique_names input.group_names) t' assigned))
          ∙ keep_ext _ _ t.groups (λ g. others_memberships v g.id other))

  abbrev written : UserRow
  written =
      set_user id (updated_display r.display_name input.display_name) h (bool_int input.disabled)
        now r

  get-written : user_with_id t id ≡ some r → get_user_by_id t' id ≡ ok (scan_user t' written)
  unfolding get_user_by_id user_with_id
  get-written found =
      ap (scanned_user t')
        (ap (first (has_id id)) cleared_users ∙ first-map-some (has_id id) _ t.users r found)

  scan-Updated :
      (n : Bytes)
      → IsValid t
      → user_with_id t id ≡ some r
      → updated_hash hash r.password_hash input.password ≡ ok h
      → Updated hash t id input (scan_user t' written) n
  unfolding scan_user user_with_id
  scan-Updated n v found hashed =
      let i : (r.id == id) ≡ true = first_sound (has_id id) t.users r found in
      record {
        row = r;
        found = found;
        same_id = ground arith;
        same_username = refl;
        new_display = simp i;
        new_hash = simp i hashed;
        new_disabled = simp i (bool_int-test input.disabled);
        new_groups =
            ap (λ k. any (λ (g : Group). beq g.name n) (user_groups t' k)) (test_eq r.id id i)
            ∙ assigned_names (cleared t id input r h now) id (unique_names input.group_names) t' n
                (delete_memberships-IsValid _ id (update_user_row-IsValid t id _ h _ now v))
                no_groups_left assigned;
      }

  others_scan :
      (v : ℕ) (o : Option UserRow)
      → (v == id) ≡ false
      → ((s : UserRow) → o ≡ some s → (s.id == v) ≡ true)
      → scanned_user t' o ≡ scanned_user t o
  unfolding scan_user
  others_scan v none other is = refl
  others_scan v (some s) other is =
      ap (λ gs. ok (record (scan_user t s) { groups = gs }))
        (others_groups s.id (ground (arith, is s refl)))

  others_users : (v : ℕ) → (v == id) ≡ false → get_user_by_id t' v ≡ get_user_by_id t v
  unfolding get_user_by_id user_with_id
  others_users v other =
      ap (scanned_user t') (
        ap (first (has_id v)) cleared_users
        ∙ first-map_self (has_id v) _ t.users (λ s. refl)
            (λ s m. set_user_self id _ h _ now s (ground arith)))
      ∙ others_scan v (first (has_id v) t.users) other (first_sound (has_id v) t.users)

-- In valid tables, where `UpdateUser` succeeds there is a row with the id, and the user that it
-- returns has that id and name, the new display name and password unless they are blank, the new
-- flag, and, for any name, a group of that name exactly where the input, with blanks and
-- repetitions left out, names it.
pub update_user-Updated :
    (hash : Bytes → Option Bytes) (now : ℕ) (t : Tables) (id : ℕ) (input : UserInput) (t' : Tables)
    (u : User) (n : Bytes)
    → IsValid t
    → update_user hash now t id input ≡ (t', ok u)
    → Updated hash t id input u n
unfolding update_user
update_user-Updated hash now t id input t' u n v e =
    let (id', q, read) = committed-ok t (update_user_tx hash now t id input) t' u e in
    let (r, h, found, hashed, assigned, same) = update_user_tx-ok hash now t id input t' id' q in
    let is : scan_user t' (written hash now t id input r h t' assigned) ≡ u = ok_eq _ u (
      sym (get-written hash now t id input r h t' assigned found)
      ∙ ap (get_user_by_id t') (sym same)
      ∙ read) in
    subst (λ x. Updated hash t id input x n) is
      (scan-Updated hash now t id input r h t' assigned n v found hashed)

-- Where `UpdateUser` succeeds, a lookup by any other id gives what it gave before.
pub update_user-others :
    (hash : Bytes → Option Bytes) (now : ℕ) (t : Tables) (id : ℕ) (input : UserInput) (t' : Tables)
    (u : User) (v : ℕ)
    → update_user hash now t id input ≡ (t', ok u)
    → v ≢ id
    → get_user_by_id t' v ≡ get_user_by_id t v
unfolding update_user
update_user-others hash now t id input t' u v e other =
    let (id', q, read) = committed-ok t (update_user_tx hash now t id input) t' u e in
    let (r, h, found, hashed, assigned, same) = update_user_tx-ok hash now t id input t' id' q in
    others_users hash now t id input r h t' assigned v (ground arith)

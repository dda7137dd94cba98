-- ===== src/Store/Assign.antt =====
-- What `assignGroupsTx` writes: exactly the groups of the names that it is given.
use nano_ldap.Prelude.{
  ℕ, ◌≡◌, refl, Bool, true, false, ◌&&◌, ◌||◌, List, [], ◌∷◌, any, All, arith, ◌==◌, none, some,
  Option-cases, Bool-cases, inl, inr, ok, >>=-eq-ok, ◌∙◌, sym, ap,
}
use nano_ldap.Text.{Bytes, beq}
use nano_ldap.Text.Case.{beq_iff}
use nano_ldap.Entry.{Group}
use nano_ldap.Sql.{
  GroupRow, Membership, Tables, first, has_id, has_name, is_membership, group_with_name,
  insert_membership, add_membership,
}
use nano_ldap.Sql.Rows.{any-append, any_ext, first_sound}
use nano_ldap.Sql.Valid.{IsValid, IsReference}
use nano_ldap.Store.{unknown_group, constraint, or_error, assign_groups, user_groups}
use nano_ldap.Store.Integrity.{or_error-ok, assign_groups-IsValid}
use nano_ldap.Store.Reads.{name_has_id, passes, same_row, any-user_groups}

insert_membership-ok :
    (t : Tables) (u g : ℕ) (t' : Tables)
    → insert_membership t u g ≡ some t'
    → t' ≡ add_membership t (record { user_id = u; group_id = g })
unfolding insert_membership
insert_membership-ok t u g t' e = ground arith

-- The step of the loop.
pub assign_groups-cons :
    (t : Tables) (id : ℕ) (name : Bytes) (names : List Bytes) (t' : Tables)
    → assign_groups t id (name ∷ names) ≡ ok t'
    → (g : GroupRow) × (first (has_name name) t.groups ≡ some g)
      × (assign_groups (add_membership t (record { user_id = id; group_id = g.id })) id names
          ≡ ok t')
unfolding assign_groups group_with_name
assign_groups-cons t id name names t' e =
    let (g, q, e₁) = >>=-eq-ok (or_error unknown_group (first (has_name name) t.groups)) _ e in
    let (t₁, r, e₂) = >>=-eq-ok (or_error constraint (insert_membership t id g.id)) _ e₁ in
    (
      g,
      or_error-ok unknown_group (first (has_name name) t.groups) g q,
      ap (λ x. assign_groups x id names)
            (sym (
              insert_membership-ok t id g.id t₁
                (or_error-ok constraint (insert_membership t id g.id) t₁ r)))
          ∙ e₂,
    )

-- Only the memberships change.
pub assign_groups-frame :
    (t : Tables) (id : ℕ) (names : List Bytes) (t' : Tables)
    → assign_groups t id names ≡ ok t'
    → t' ≡ record t { user_groups = t'.user_groups }
assign_groups-frame t id [] t' e = unfold assign_groups in ground arith
assign_groups-frame t id (name ∷ names) t' e =
    let (g, q, f) = assign_groups-cons t id name names t' e in
    assign_groups-frame (add_membership t (record { user_id = id; group_id = g.id })) id names t' f

or_and :
    (a b c d e : Bool) → d ≡ c → ((a || ((b && c) || false)) || (b && e)) ≡ (a || (b && (d || e)))
or_and a b c d e h = ground arith

pub any-assign_groups :
    (t : Tables) (id : ℕ) (names : List Bytes) (t' : Tables) (v k : ℕ)
    → assign_groups t id names ≡ ok t'
    → any (is_membership v k) t'.user_groups
      ≡ (any (is_membership v k) t.user_groups || ((id == v) && any (name_has_id t.groups k) names))
any-assign_groups t id [] t' v k e = unfold assign_groups in ground arith
any-assign_groups t id (name ∷ names) t' v k e =
    let (g, q, f) = assign_groups-cons t id name names t' e in
    let m : Membership = record { user_id = id; group_id = g.id } in
    let ih = any-assign_groups (add_membership t m) id names t' v k f in
    ih
    ∙ ap (λ b. b || ((id == v) && any (name_has_id t.groups k) names))
        (any-append (is_membership v k) t.user_groups (m ∷ []))
    ∙ or_and (any (is_membership v k) t.user_groups) (id == v) (g.id == k) _
        (any (name_has_id t.groups k) names) (ap (passes (λ x. x.id == k)) q)

-- The transaction fails on a name that no group has.
pub assign_groups-found :
    (t : Tables) (id : ℕ) (names : List Bytes) (t' : Tables) (n : Bytes)
    → assign_groups t id names ≡ ok t'
    → first (has_name n) t.groups ≡ none
    → any (λ m. beq m n) names ≡ false
assign_groups-found t id [] t' n e h = refl
assign_groups-found t id (name ∷ names) t' n e h =
    let (g, q, f) = assign_groups-cons t id name names t' e in
    let later =
      assign_groups-found (add_membership t (record { user_id = id; group_id = g.id })) id names t'
        n f h in
    elim (Bool-cases (beq name n)) [
      | inl same ↦
          absurd (ground (arith, ap (λ x. first (has_name x) t.groups) ((beq_iff name n).0 same)))
      | inr other ↦ ground arith
    ]

name_has_id_iff :
    (t : Tables) (n m : Bytes) (g : GroupRow)
    → IsValid t
    → first (has_name n) t.groups ≡ some g
    → name_has_id t.groups g.id m ≡ beq m n
name_has_id_iff t n m g v q = elim (Bool-cases (beq m n)) [
  | inl same ↦
      ap (passes (λ x. x.id == g.id))
        (ap (λ x. first (has_name x) t.groups) ((beq_iff m n).0 same) ∙ q)
      ∙ ground arith
  | inr other ↦ elim (Option-cases (first (has_name m) t.groups)) [
    | inl e ↦ ap (passes (λ x. x.id == g.id)) e ∙ sym other
    | inr (g', e) ↦ ap (passes (λ x. x.id == g.id)) e ∙ elim (Bool-cases (g'.id == g.id)) [
      | inl i ↦
          let one : g' ≡ g =
            same_row (has_name m) (has_name n) t.groups g' g v.group_ids e q (ground arith) in
          absurd (
            ground (
              arith,
              first_sound (has_name m) t.groups g' e,
              first_sound (has_name n) t.groups g q,
              ap (λ x. x.name) one,
              beq_iff g'.name m,
              beq_iff g.name n,
              beq_iff m n,
            ))
      | inr i ↦ i ∙ sym other
    ]
  ]
]

-- A user who was in no group is then in exactly the groups of the names.
pub assigned_names :
    (t : Tables) (id : ℕ) (names : List Bytes) (t' : Tables) (n : Bytes)
    → IsValid t
    → ((k : ℕ) → any (is_membership id k) t.user_groups ≡ false)
    → assign_groups t id names ≡ ok t'
    → any (λ (g : Group). beq g.name n) (user_groups t' id) ≡ any (λ m. beq m n) names
assigned_names t id names t' n v alone e =
    any-user_groups t' id n (assign_groups-IsValid t id names t' v e)
    ∙ ap (λ gs. passes (λ g. any (is_membership id g.id) t'.user_groups) (first (has_name n) gs))
        (ap (λ x. x.groups) (assign_groups-frame t id names t' e))
    ∙ elim (Option-cases (first (has_name n) t.groups)) [
      | inl q ↦ ap (passes _) q ∙ sym (assign_groups-found t id names t' n e q)
      | inr (g, q) ↦
          ap (passes _) q
          ∙ any-assign_groups t id names t' id g.id e
          ∙ ap (λ b. b || ((id == id) && any (name_has_id t.groups g.id) names)) (alone g.id)
          ∙ ground arith
          ∙ any_ext _ _ names (λ m. name_has_id_iff t n m g v q)
    ]

-- A user id that no row has is in no membership.
pub no_memberships :
    (t : Tables) (id k : ℕ)
    → IsValid t
    → any (has_id id) t.users ≡ false
    → any (is_membership id k) t.user_groups ≡ false
no_memberships t id k v h = by_row t.user_groups v.references
  where
    of_test : (a b : ℕ) → (a == b) ≡ true → a ≡ b
    of_test a b e = ground arith

    by_row :
        (ms : List Membership)
        → All (IsReference t.users t.groups) ms
        → any (is_membership id k) ms ≡ false
    by_row [] r = refl
    by_row (m ∷ ms) ((a, b), r) = elim (Bool-cases (m.user_id == id)) [
      | inl e ↦
          absurd (ground (arith, ap (λ (x : ℕ). any (has_id x) t.users) (of_test m.user_id id e)))
      | inr e ↦ ground (arith, by_row ms r)
    ]

-- ===== src/Store/Reads.antt =====
-- What the reads of the store return.
use nano_ldap.Prelude.{
  ℕ, ◌≡◌, refl, Bool, true, false, ◌&&◌, List, [], ◌∷◌, keep, any, arith, ◌==◌, Option, none, some,
  Bool-cases, inl, inr, ok, ◌∙◌, ap,
}
use nano_ldap.Text.{Bytes, beq}
use nano_ldap.Text.Case.{beq_iff}
use nano_ldap.Entry.{User, Group}
use nano_ldap.Sql.{
  UserRow, GroupRow, Tables, first, has_id, has_username, has_name, is_membership, user_with_id,
  user_with_name, groups_of, order_by,
}
use nano_ldap.Sql.Rows.{Uniq, any-map, any-keep, any_imp, any-order_by, first_sound}
use nano_ldap.Sql.Valid.{IsValid, same_group_id, same_name}
use nano_ldap.Store.{
  scanned_user, scan_user, get_user_by_username, get_user_by_id, user_groups, group_of_row,
}

pub scanned_user-ok :
    (t : Tables) (o : Option UserRow) (u : User)
    → scanned_user t o ≡ ok u
    → (r : UserRow) × (o ≡ some r) × (u ≡ scan_user t r)
scanned_user-ok t none u e = cc
scanned_user-ok t (some r) u e = (r, refl, ground arith)

-- The lookup by name returns a user of that name.
pub get_user_by_username_sound :
    (t : Tables) (name : Bytes) (u : User) → get_user_by_username t name ≡ ok u → u.username ≡ name
unfolding get_user_by_username user_with_name
get_user_by_username_sound t name u e =
    let (r, q, s) = scanned_user-ok t (first (has_username name) t.users) u e in
    ap (λ v. v.username) s
    ∙ unfold scan_user in (beq_iff r.username name).0 (first_sound (has_username name) t.users r q)

pub get_user_by_id_sound :
    (t : Tables) (id : ℕ) (u : User)
    → get_user_by_id t id ≡ ok u
    → (r : UserRow) × (user_with_id t id ≡ some r) × (u ≡ scan_user t r) × (r.id ≡ id)
unfolding get_user_by_id user_with_id
get_user_by_id_sound t id u e =
    let (r, q, s) = scanned_user-ok t (first (has_id id) t.users) u e in
    (r, q, s, ground (arith, first_sound (has_id id) t.users r q))

abbrev pub passes : (GroupRow → Bool) → Option GroupRow → Bool
passes q none = false
passes q (some g) = q g

-- Whether the group of a name has an id.
abbrev pub name_has_id : List GroupRow → ℕ → Bytes → Bool
name_has_id groups k n = passes (λ g. g.id == k) (first (has_name n) groups)

none_named :
    (n : Bytes) (q : GroupRow → Bool) (xs : List GroupRow) (x : GroupRow)
    → beq x.name n ≡ true
    → any (same_name x) xs ≡ false
    → any (λ g. q g && has_name n g) xs ≡ false
none_named n q xs x e h =
    any_imp _ (same_name x) xs
      (λ g m. ground (arith, beq_iff x.name n, beq_iff g.name n, beq_iff g.name x.name)) h

-- Names are unique: a test of the groups of a name is a test of the one that the lookup finds.
pub any_named :
    (n : Bytes) (q : GroupRow → Bool) (xs : List GroupRow)
    → Uniq same_name xs
    → any (λ g. q g && has_name n g) xs ≡ passes q (first (has_name n) xs)
any_named n q [] u = refl
any_named n q (x ∷ xs) (a, u) = elim (Bool-cases (beq x.name n)) [
  | inl e ↦ ground (arith, none_named n q xs x e a)
  | inr e ↦ ground (arith, any_named n q xs u)
]

pub first-any_of :
    (p q : GroupRow → Bool) (xs : List GroupRow) (x : GroupRow)
    → first p xs ≡ some x
    → q x ≡ true
    → any q xs ≡ true
first-any_of p q [] x e h = cc
first-any_of p q (y ∷ ys) x e h = elim (Bool-cases (p y)) [
  | inl t ↦ ground arith
  | inr f ↦ ground (arith, first-any_of p q ys x)
]

-- Ids are unique: two lookups that agree on the id find the same group.
pub same_row :
    (p q : GroupRow → Bool) (xs : List GroupRow) (x y : GroupRow)
    → Uniq same_group_id xs
    → first p xs ≡ some x
    → first q xs ≡ some y
    → x.id ≡ y.id
    → x ≡ y
same_row p q [] x y u e f i = cc
same_row p q (z ∷ zs) x y (a, u) e f i = elim (Bool-cases (p z)) [
  | inl pz ↦ elim (Bool-cases (q z)) [
    | inl qz ↦ ground arith
    | inr qz ↦ absurd (ground (arith, first-any_of q (same_group_id z) zs y))
  ]
  | inr pz ↦ elim (Bool-cases (q z)) [
    | inl qz ↦ absurd (ground (arith, first-any_of p (same_group_id z) zs x))
    | inr qz ↦ same_row p q zs x y u (ground arith) (ground arith) i
  ]
]

-- The names of the groups that a user is in.
pub any-user_groups :
    (t : Tables) (id : ℕ) (n : Bytes)
    → IsValid t
    → any (λ (g : Group). beq g.name n) (user_groups t id)
      ≡ passes (λ g. any (is_membership id g.id) t.user_groups) (first (has_name n) t.groups)
unfolding user_groups groups_of
any-user_groups t id n v =
    let q : GroupRow → Bool = λ g. any (is_membership id g.id) t.user_groups in
    any-map (λ (g : Group). beq g.name n) group_of_row
      (order_by (λ (g : GroupRow). g.name) (keep q t.groups))
    ∙ any-order_by (λ (g : GroupRow). g.name) (has_name n) (keep q t.groups)
    ∙ any-keep (has_name n) q t.groups
    ∙ any_named n q t.groups v.names

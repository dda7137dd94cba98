-- ===== src/Sql/Changes.antt =====
-- The constraints of the schema hold after every UPDATE and DELETE.
use mathlib.Core.Path.{subst}
use nano_ldap.Prelude.{
  ap₂, ◌⊎◌, ℕ, ◌<◌, ◌≡◌, refl, true, false, not, ◌&&◌, List, [], ◌∷◌, map, keep, any, All, arith,
  ◌==◌, some, Bool-cases, inl, inr, ◌∙◌, sym, ap,
}
use nano_ldap.Text.{Bytes, beq}
use nano_ldap.Text.Case.{beq_iff}
use nano_ldap.Sql.{
  UserRow, GroupRow, Membership, Tables, has_id, group_has_id, has_name, set_user, update_user_row,
  delete_user_row, delete_memberships, set_group, name_is_taken, update_group_row, delete_group_row,
}
use nano_ldap.Sql.Rows.{Uniq, any-keep, any_ext, any_imp, any-map, Uniq-keep, All-keep, All-imp}
use nano_ldap.Sql.Valid.{
  IsValid, IsReference, same_id, same_username, same_group_id, same_name, same_membership,
}

pub delete_user_row-IsValid : (t : Tables) (id : ℕ) → IsValid t → IsValid (delete_user_row t id)
unfolding delete_user_row
delete_user_row-IsValid t id v = record {
  user_ids = Uniq-keep same_id (λ r. not (has_id id r)) t.users v.user_ids;
  usernames = Uniq-keep same_username (λ r. not (has_id id r)) t.users v.usernames;
  users_below = All-keep (λ r. r.id < t.next_user) (λ r. not (has_id id r)) t.users v.users_below;
  group_ids = v.group_ids;
  names = v.names;
  groups_below = v.groups_below;
  keys = Uniq-keep same_membership (λ m. not (m.user_id == id)) t.user_groups v.keys;
  references = kept t.user_groups v.references;
}
  where
    kept :
        (ms : List Membership)
        → All (IsReference t.users t.groups) ms
        → All
            (IsReference (keep (λ r. not (has_id id r)) t.users) t.groups)
            (keep (λ m. not (m.user_id == id)) ms)
    kept [] h = tt
    kept (m ∷ ms) ((a, b), h) = elim (Bool-cases (m.user_id == id)) [
      | inl e ↦ rw e (kept ms h)
      | inr e ↦ rw e (
        (
          any-keep (has_id m.user_id) (λ r. not (has_id id r)) t.users
              ∙ any_ext _ _ t.users (λ r. ground arith)
              ∙ a,
          b,
        ),
        kept ms h,
      )
    ]

pub delete_memberships-IsValid :
    (t : Tables) (id : ℕ) → IsValid t → IsValid (delete_memberships t id)
unfolding delete_memberships
delete_memberships-IsValid t id v = record {
  user_ids = v.user_ids;
  usernames = v.usernames;
  users_below = v.users_below;
  group_ids = v.group_ids;
  names = v.names;
  groups_below = v.groups_below;
  keys = Uniq-keep same_membership (λ m. not (m.user_id == id)) t.user_groups v.keys;
  references =
      All-keep (IsReference t.users t.groups) (λ m. not (m.user_id == id)) t.user_groups
        v.references;
}

pub delete_group_row-IsValid : (t : Tables) (id : ℕ) → IsValid t → IsValid (delete_group_row t id)
unfolding delete_group_row
delete_group_row-IsValid t id v = record {
  user_ids = v.user_ids;
  usernames = v.usernames;
  users_below = v.users_below;
  group_ids = Uniq-keep same_group_id (λ g. not (group_has_id id g)) t.groups v.group_ids;
  names = Uniq-keep same_name (λ g. not (group_has_id id g)) t.groups v.names;
  groups_below =
      All-keep (λ g. g.id < t.next_group) (λ g. not (group_has_id id g)) t.groups v.groups_below;
  keys = Uniq-keep same_membership (λ m. not (m.group_id == id)) t.user_groups v.keys;
  references = kept t.user_groups v.references;
}
  where
    kept :
        (ms : List Membership)
        → All (IsReference t.users t.groups) ms
        → All
            (IsReference t.users (keep (λ g. not (group_has_id id g)) t.groups))
            (keep (λ m. not (m.group_id == id)) ms)
    kept [] h = tt
    kept (m ∷ ms) ((a, b), h) = elim (Bool-cases (m.group_id == id)) [
      | inl e ↦ rw e (kept ms h)
      | inr e ↦ rw e (
        (
          a,
          any-keep (group_has_id m.group_id) (λ g. not (group_has_id id g)) t.groups
              ∙ any_ext _ _ t.groups (λ r. ground arith)
              ∙ b,
        ),
        kept ms h,
      )
    ]

module _ (f : UserRow → UserRow) (same : (r : UserRow) → (f r).id ≡ r.id)
    (named : (r : UserRow) → (f r).username ≡ r.username) where
  Uniq-map_id : (xs : List UserRow) → Uniq same_id xs → Uniq same_id (map f xs)
  Uniq-map_id [] u = tt
  Uniq-map_id (x ∷ xs) (a, u) = (
    any-map (same_id (f x)) f xs ∙ any_ext _ _ xs (λ r. ground (arith, same r, same x)) ∙ a,
    Uniq-map_id xs u,
  )

  Uniq-map_username : (xs : List UserRow) → Uniq same_username xs → Uniq same_username (map f xs)
  Uniq-map_username [] u = tt
  Uniq-map_username (x ∷ xs) (a, u) = (
    any-map (same_username (f x)) f xs ∙ any_ext _ _ xs (λ r. ap₂ beq (named r) (named x)) ∙ a,
    Uniq-map_username xs u,
  )

  All-map_below :
      (n : ℕ) (xs : List UserRow) → All (λ r. r.id < n) xs → All (λ r. r.id < n) (map f xs)
  All-map_below n [] h = tt
  All-map_below n (x ∷ xs) (a, h) = (omega (arith, same x), All-map_below n xs h)

pub update_user_row-IsValid :
    (t : Tables) (id : ℕ) (display hash : Bytes) (disabled now : ℕ)
    → IsValid t
    → IsValid (update_user_row t id display hash disabled now)
unfolding update_user_row
update_user_row-IsValid t id display hash disabled now v =
    let f = set_user id display hash disabled now in
    record {
      user_ids = Uniq-map_id f (λ r. refl) (λ r. refl) t.users v.user_ids;
      usernames = Uniq-map_username f (λ r. refl) (λ r. refl) t.users v.usernames;
      users_below = All-map_below f (λ r. refl) (λ r. refl) t.next_user t.users v.users_below;
      group_ids = v.group_ids;
      names = v.names;
      groups_below = v.groups_below;
      keys = v.keys;
      references =
          All-imp _ _ t.user_groups (λ m (a, b). (any-map (has_id m.user_id) f t.users ∙ a, b))
            v.references;
    }

module _ (id : ℕ) (name description : Bytes) where
  -- The row that is renamed, before rows that are not.
  others_differ :
      (xs : List GroupRow)
      → any (group_has_id id) xs ≡ false
      → any (λ g. has_name name g && not (group_has_id id g)) xs ≡ false
      → any (λ g. has_name name (set_group id name description g)) xs ≡ false
  others_differ [] h k = refl
  others_differ (x ∷ xs) h k = ground (arith, others_differ xs)

  stays :
      (other : Bytes) (xs : List GroupRow)
      → any (group_has_id id) xs ≡ false
      → any (has_name other) xs ≡ false
      → any (λ g. has_name other (set_group id name description g)) xs ≡ false
  stays other [] h k = refl
  stays other (x ∷ xs) h k = ground (arith, stays other xs)

  Uniq-map_group_id :
      (xs : List GroupRow)
      → Uniq same_group_id xs
      → Uniq same_group_id (map (set_group id name description) xs)
  Uniq-map_group_id [] u = tt
  Uniq-map_group_id (x ∷ xs) (a, u) = (
    any-map (same_group_id x) (set_group id name description) xs ∙ any_ext _ _ xs (λ g. refl) ∙ a,
    Uniq-map_group_id xs u,
  )

  Uniq-map_name :
      (xs : List GroupRow)
      → Uniq same_group_id xs
      → Uniq same_name xs
      → (any (group_has_id id) xs && any (λ g. has_name name g && not (group_has_id id g)) xs)
        ≡ false
      → Uniq same_name (map (set_group id name description) xs)
  Uniq-map_name [] i u h = tt
  Uniq-map_name (x ∷ xs) (i, is) (u, us) h = (
    any-map (same_name (set_group id name description x)) (set_group id name description) xs
        ∙ head (Bool-cases (x.id == id)) (Bool-cases (any (group_has_id id) xs)),
    Uniq-map_name xs is us (ground arith),
  )
    where
      head :
          ((x.id == id) ≡ true) ⊎ ((x.id == id) ≡ false)
          → (any (group_has_id id) xs ≡ true) ⊎ (any (group_has_id id) xs ≡ false)
          → any
              (λ g.
                has_name (set_group id name description x).name (set_group id name description g))
              xs
            ≡ false
      head (inl e) c =
          let q : x.id ≡ id = ground arith in
          let alone : any (group_has_id id) xs ≡ false =
            ap (λ n. any (group_has_id n) xs) (sym q) ∙ i in
          rw e (others_differ xs alone (ground arith))
      head (inr e) (inl c) = rw e (
          any_imp _ (has_name x.name) xs
            (λ g m. ground (arith, beq_iff name x.name, beq_iff x.name name)) u)
      head (inr e) (inr c) = rw e (stays x.name xs c u)

  All-map_group :
      (n : ℕ) (xs : List GroupRow)
      → All (λ g. g.id < n) xs
      → All (λ g. g.id < n) (map (set_group id name description) xs)
  All-map_group n [] h = tt
  All-map_group n (x ∷ xs) (a, h) = (a, All-map_group n xs h)

pub update_group_row-IsValid :
    (t : Tables) (id : ℕ) (name description : Bytes) (t' : Tables)
    → IsValid t
    → update_group_row t id name description ≡ some t'
    → IsValid t'
unfolding update_group_row
update_group_row-IsValid t id name description t' v e =
    let f = set_group id name description in
    let (same, free) : (◌≡◌ {A = Tables} (record t { groups = map f t.groups }) t')
        × (name_is_taken t id name ≡ false) =
      ground arith in
    subst IsValid same (record {
      user_ids = v.user_ids;
      usernames = v.usernames;
      users_below = v.users_below;
      group_ids = Uniq-map_group_id id name description t.groups v.group_ids;
      names = Uniq-map_name id name description t.groups v.group_ids v.names free;
      groups_below = All-map_group id name description t.next_group t.groups v.groups_below;
      keys = v.keys;
      references =
          All-imp _ _ t.user_groups
            (λ m (a, b). (a, any-map (group_has_id m.group_id) f t.groups ∙ b)) v.references;
    })

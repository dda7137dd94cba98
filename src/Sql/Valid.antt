-- ===== src/Sql/Valid.antt =====
-- The constraints of the schema, which every INSERT keeps.
use mathlib.Core.Path.{subst}
use nano_ldap.Prelude.{
  ℕ, ◌+◌, ◌<◌, ◌≡◌, refl, Bool, true, false, List, [], ◌∷◌, any, All, arith, some, Bool-cases, inl,
  inr, ◌∙◌,
}
use nano_ldap.Text.{Bytes, beq}
use nano_ldap.Text.Case.{beq_iff}
use nano_ldap.Sql.{
  UserRow, GroupRow, Membership, Tables, migrated, has_id, has_username, group_has_id, has_name,
  is_membership, add_user, new_user, add_group, add_membership, insert_user, insert_membership,
  insert_group,
}
use nano_ldap.Sql.Rows.{Uniq, any-append, any_ext, Uniq-append, All-append, All-imp}

abbrev pub same_id : UserRow → UserRow → Bool
same_id r = has_id r.id

abbrev pub same_username : UserRow → UserRow → Bool
same_username r = has_username r.username

abbrev pub same_group_id : GroupRow → GroupRow → Bool
same_group_id g = group_has_id g.id

abbrev pub same_name : GroupRow → GroupRow → Bool
same_name g = has_name g.name

abbrev pub same_membership : Membership → Membership → Bool
same_membership m = is_membership m.user_id m.group_id

abbrev pub IsReference : List UserRow → List GroupRow → Membership → Type 0
IsReference users groups m =
    (any (has_id m.user_id) users ≡ true) × (any (group_has_id m.group_id) groups ≡ true)

-- The primary keys and the unique columns hold no value twice, the sequences are ahead of the ids,
-- and a membership refers to a user and to a group.
pub record IsValid (t : Tables) : Type 0 where
  pub user_ids : Uniq same_id t.users
  pub usernames : Uniq same_username t.users
  pub users_below : All (λ r. r.id < t.next_user) t.users
  pub group_ids : Uniq same_group_id t.groups
  pub names : Uniq same_name t.groups
  pub groups_below : All (λ g. g.id < t.next_group) t.groups
  pub keys : Uniq same_membership t.user_groups
  pub references : All (IsReference t.users t.groups) t.user_groups

pub migrated-IsValid : IsValid migrated
migrated-IsValid = record {
  user_ids = tt;
  usernames = tt;
  users_below = tt;
  group_ids = tt;
  names = tt;
  groups_below = tt;
  keys = tt;
  references = tt;
}

fresh_id :
    (xs : List UserRow) (n : ℕ) (y : UserRow)
    → y.id ≡ n
    → All (λ r. r.id < n) xs
    → any (λ x. same_id x y) xs ≡ false
fresh_id [] n y e h = refl
fresh_id (x ∷ xs) n y e (a, h) = ground (arith, fresh_id xs n y e h)

fresh_group :
    (xs : List GroupRow) (n : ℕ) (y : GroupRow)
    → y.id ≡ n
    → All (λ g. g.id < n) xs
    → any (λ x. same_group_id x y) xs ≡ false
fresh_group [] n y e h = refl
fresh_group (x ∷ xs) n y e (a, h) = ground (arith, fresh_group xs n y e h)

beq_sym : (s t : Bytes) → beq s t ≡ beq t s
beq_sym s t = ground (arith, beq_iff s t, beq_iff t s)

add_user-IsValid :
    (t : Tables) (r : UserRow)
    → r.id ≡ t.next_user
    → any (has_username r.username) t.users ≡ false
    → IsValid t
    → IsValid (add_user t r)
add_user-IsValid t r e free v = record {
  user_ids =
      Uniq-append same_id t.users r v.user_ids (fresh_id t.users t.next_user r e v.users_below);
  usernames =
      Uniq-append same_username t.users r v.usernames
        (any_ext _ _ t.users (λ x. beq_sym r.username x.username) ∙ free);
  users_below =
      All-append (λ x. x.id < t.next_user + 1) t.users (r ∷ [])
        (All-imp _ _ t.users (λ x h. omega arith) v.users_below) (omega arith, tt);
  group_ids = v.group_ids;
  names = v.names;
  groups_below = v.groups_below;
  keys = v.keys;
  references =
      All-imp _ _ t.user_groups
        (λ m (a, b). (ground (arith, any-append (has_id m.user_id) t.users (r ∷ [])), b))
        v.references;
}

pub insert_user-IsValid :
    (t : Tables) (name hash display : Bytes) (disabled now : ℕ) (t' : Tables) (id : ℕ)
    → IsValid t
    → insert_user t name hash display disabled now ≡ some (t', id)
    → IsValid t'
unfolding insert_user
insert_user-IsValid t name hash display disabled now t' id v e =
    elim (Bool-cases (any (has_username name) t.users)) [
      | inl taken ↦ absurd (ground arith)
      | inr free ↦
          let r : UserRow = new_user t.next_user name hash display disabled now in
          let same : add_user t r ≡ t' = ground arith in
          subst IsValid same (add_user-IsValid t r refl free v)
    ]

add_group-IsValid :
    (t : Tables) (g : GroupRow)
    → g.id ≡ t.next_group
    → any (has_name g.name) t.groups ≡ false
    → IsValid t
    → IsValid (add_group t g)
add_group-IsValid t g e free v = record {
  user_ids = v.user_ids;
  usernames = v.usernames;
  users_below = v.users_below;
  group_ids =
      Uniq-append same_group_id t.groups g v.group_ids
        (fresh_group t.groups t.next_group g e v.groups_below);
  names =
      Uniq-append same_name t.groups g v.names
        (any_ext _ _ t.groups (λ x. beq_sym g.name x.name) ∙ free);
  groups_below =
      All-append (λ x. x.id < t.next_group + 1) t.groups (g ∷ [])
        (All-imp _ _ t.groups (λ x h. omega arith) v.groups_below) (omega arith, tt);
  keys = v.keys;
  references =
      All-imp _ _ t.user_groups
        (λ m (a, b). (a, ground (arith, any-append (group_has_id m.group_id) t.groups (g ∷ []))))
        v.references;
}

pub insert_group-IsValid :
    (t : Tables) (name description : Bytes) (t' : Tables) (id : ℕ)
    → IsValid t
    → insert_group t name description ≡ some (t', id)
    → IsValid t'
unfolding insert_group
insert_group-IsValid t name description t' id v e =
    elim (Bool-cases (any (has_name name) t.groups)) [
      | inl taken ↦ absurd (ground arith)
      | inr free ↦
          let g : GroupRow = record { id = t.next_group; name = name; description = description } in
          let same : add_group t g ≡ t' = ground arith in
          subst IsValid same (add_group-IsValid t g refl free v)
    ]

add_membership-IsValid :
    (t : Tables) (m : Membership)
    → any (is_membership m.user_id m.group_id) t.user_groups ≡ false
    → IsReference t.users t.groups m
    → IsValid t
    → IsValid (add_membership t m)
add_membership-IsValid t m fresh refers v = record {
  user_ids = v.user_ids;
  usernames = v.usernames;
  users_below = v.users_below;
  group_ids = v.group_ids;
  names = v.names;
  groups_below = v.groups_below;
  keys =
      Uniq-append same_membership t.user_groups m v.keys
        (any_ext _ _ t.user_groups (λ x. ground arith) ∙ fresh);
  references =
      All-append (IsReference t.users t.groups) t.user_groups (m ∷ []) v.references (refers, tt);
}

pub insert_membership-IsValid :
    (t : Tables) (u g : ℕ) (t' : Tables)
    → IsValid t
    → insert_membership t u g ≡ some t'
    → IsValid t'
unfolding insert_membership
insert_membership-IsValid t u g t' v e =
    let m : Membership = record { user_id = u; group_id = g } in
    let (same, fresh, a, b) : (add_membership t m ≡ t')
        × (any (is_membership u g) t.user_groups ≡ false)
        × (any (has_id u) t.users ≡ true)
        × (any (group_has_id g) t.groups ≡ true) =
      ground arith in
    subst IsValid same (add_membership-IsValid t m fresh (a, b) v)

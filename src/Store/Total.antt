-- ===== src/Store/Total.antt =====
-- When `assignGroupsTx` succeeds: exactly when every name is that of a group.
use nano_ldap.Prelude.{
  ℕ, ◌≡◌, refl, Bool, true, false, ◌&&◌, ◌||◌, List, [], ◌∷◌, map, any, All, arith, ◌==◌, some,
  is_some, Option-cases, Bool-cases, inl, inr, Result, ok, err, ◌∙◌, ap, ◌⊎◌,
}
use nano_ldap.Text.{Bytes, beq, to_lower}
use nano_ldap.Text.Case.{beq_iff, beq_self}
use nano_ldap.Accounts.{was_seen}
use nano_ldap.Accounts.Names.{AreUnique}
use nano_ldap.Sql.{
  GroupRow, Membership, Tables, first, has_id, group_has_id, has_name, is_membership,
  group_with_name, insert_membership, add_membership,
}
use nano_ldap.Sql.Rows.{any-append, first_sound}
use nano_ldap.Sql.Valid.{IsValid, insert_membership-IsValid}
use nano_ldap.Store.{assign_groups}
use nano_ldap.Store.Reads.{same_row, first-any_of}

abbrev pub is_ok {ℓ} : {E : Type 0} {A : Type ℓ} → Result E A → Bool
is_ok (ok a) = true
is_ok (err e) = false

-- Every name is that of a group.
abbrev pub all_groups_exist : List GroupRow → List Bytes → Bool
all_groups_exist groups [] = true
all_groups_exist groups (n ∷ ns) = is_some (first (has_name n) groups) && all_groups_exist groups ns

abbrev pub Differ : List Bytes → Type 0
Differ [] = Unit
Differ (x ∷ xs) = All (λ y. beq y x ≡ false) xs × Differ xs

was_seen-Differ :
    (x : Bytes) (xs : List Bytes)
    → was_seen (map to_lower xs) (to_lower x) ≡ false
    → All (λ y. beq y x ≡ false) xs
was_seen-Differ x [] h = tt
was_seen-Differ x (y ∷ ys) h = (differs (Bool-cases (beq y x)), was_seen-Differ x ys (ground arith))
  where
    differs : (beq y x ≡ true) ⊎ (beq y x ≡ false) → beq y x ≡ false
    differs (inr e) = e
    differs (inl e) = absurd (
        ground (
          arith,
          ap (λ s. beq (to_lower s) (to_lower x)) ((beq_iff y x).0 e),
          beq_self (to_lower x),
        ))

pub AreUnique-Differ : (xs : List Bytes) → AreUnique xs → Differ xs
AreUnique-Differ [] h = tt
AreUnique-Differ (x ∷ xs) (a, h) = (was_seen-Differ x xs a, AreUnique-Differ xs h)

-- The user is not yet in the group of the name.
abbrev pub IsFresh : Tables → ℕ → Bytes → Type 0
IsFresh t id n =
    (g : GroupRow)
    → first (has_name n) t.groups ≡ some g
    → any (is_membership id g.id) t.user_groups ≡ false

insert_membership-fresh :
    (t : Tables) (u g : ℕ)
    → any (is_membership u g) t.user_groups ≡ false
    → any (has_id u) t.users ≡ true
    → any (group_has_id g) t.groups ≡ true
    → insert_membership t u g ≡ some (add_membership t (record { user_id = u; group_id = g }))
unfolding insert_membership
insert_membership-fresh t u g a b c = rw (a, b, c)

still-IsFresh :
    (t : Tables) (id : ℕ) (n m : Bytes) (g : GroupRow)
    → IsValid t
    → first (has_name n) t.groups ≡ some g
    → beq m n ≡ false
    → IsFresh t id m
    → IsFresh (add_membership t (record { user_id = id; group_id = g.id })) id m
still-IsFresh t id n m g v q other fresh g' q' =
    any-append (is_membership id g'.id) t.user_groups
      (record { user_id = id; group_id = g.id } ∷ [])
    ∙ ap (λ b. b || (((id == id) && (g.id == g'.id)) || false)) (fresh g' q')
    ∙ apart (Bool-cases (g.id == g'.id))
  where
    apart :
        ((g.id == g'.id) ≡ true) ⊎ ((g.id == g'.id) ≡ false)
        → (false || (((id == id) && (g.id == g'.id)) || false)) ≡ false
    apart (inr e) = ground arith
    apart (inl e) =
        let one : g ≡ g' =
          same_row (has_name n) (has_name m) t.groups g g' v.group_ids q q' (ground arith) in
        absurd (
          ground (
            arith,
            first_sound (has_name n) t.groups g q,
            first_sound (has_name m) t.groups g' q',
            ap (λ x. x.name) one,
            beq_iff g.name n,
            beq_iff g'.name m,
            beq_iff m n,
          ))

All-imp₂ :
    {A : Type 0} (P Q R : A → Type 0) (xs : List A)
    → ((x : A) → P x → Q x → R x)
    → All P xs
    → All Q xs
    → All R xs
All-imp₂ P Q R [] f h k = tt
All-imp₂ P Q R (x ∷ xs) f (a, h) (b, k) = (f x a b, All-imp₂ P Q R xs f h k)

pub assign_groups-is_ok :
    (t : Tables) (id : ℕ) (names : List Bytes)
    → IsValid t
    → any (has_id id) t.users ≡ true
    → Differ names
    → All (IsFresh t id) names
    → is_ok (assign_groups t id names) ≡ all_groups_exist t.groups names
unfolding assign_groups group_with_name
assign_groups-is_ok t id [] v u d f = refl
assign_groups-is_ok t id (n ∷ ns) v u (d, ds) (f, fs) =
    elim (Option-cases (first (has_name n) t.groups)) [
      | inl q ↦ rw q refl
      | inr (g, q) ↦
          let m : Membership = record { user_id = id; group_id = g.id } in
          let inserted : insert_membership t id g.id ≡ some (add_membership t m) =
            insert_membership-fresh t id g.id (f g q) u
              (first-any_of (has_name n) (group_has_id g.id) t.groups g q (ground arith)) in
          rw (q, inserted)
            (assign_groups-is_ok (add_membership t m) id ns
              (insert_membership-IsValid t id g.id (add_membership t m) v inserted) u ds
              (All-imp₂ (λ y. beq y n ≡ false) (IsFresh t id) (IsFresh (add_membership t m) id) ns
                (λ y other fresh. still-IsFresh t id n y g v q other fresh) d fs))
    ]

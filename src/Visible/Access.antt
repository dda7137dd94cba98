-- ===== src/Visible/Access.antt =====
-- Administrators see the whole directory; others see themselves and their own groups.
use nano_ldap.Prelude.{◌≡◌, refl, Bool, true, false, List, [], ◌∷◌, ◌++◌, map, keep, arith, ap, ◌∙◌}
use nano_ldap.Text.{Bytes, beq}
use nano_ldap.Text.Case.{beq_self}
use nano_ldap.Entry.{User, Group, is_member_of, user_entry, group_entry}
use nano_ldap.Visible.{group_name, user_name, is_in, admin_names, containers, visible_entries}

module _ {A : Type 0} where
  -- Every element's name is among the names: nothing is dropped, whatever else is allowed.
  keep-is_in :
      (name : A → Bytes) (xs : List A) (p : A → Bool)
      → ((x : A) → is_in (map name xs) (name x) ≡ true → p x ≡ true)
      → keep p xs ≡ xs
  keep-is_in name [] p h = refl
  keep-is_in name (x ∷ xs) p h =
      let first = h x (ground (arith, beq_self (name x))) in
      rw first (ap (◌∷◌ x) (keep-is_in name xs p (λ y e. h y (ground arith))))

  keep_ext : (p q : A → Bool) (xs : List A) → ((x : A) → p x ≡ q x) → keep p xs ≡ keep q xs
  keep_ext p q [] h = refl
  keep_ext p q (x ∷ xs) h = ground (arith, h x, keep_ext p q xs h)

-- A member of `admins` or `mvradmins` sees the containers, every user and every group.
pub visible_entries_admin :
    (user : User) (base : Bytes) (all_users : List User) (all_groups : List Group)
    → is_member_of user admin_names ≡ true
    → visible_entries user base all_users all_groups
      ≡ containers base ++ (map (user_entry base) all_users ++ map (group_entry base) all_groups)
unfolding visible_entries
visible_entries_admin user base all_users all_groups admin = rw admin (
    ap
      (λ us.
        containers base
        ++ (map (user_entry base) us
            ++ map (group_entry base)
                (keep (λ group. is_in (map group_name all_groups) (group_name group)) all_groups)))
      (keep-is_in user_name all_users
        (λ candidate. is_in (user.username ∷ map user_name all_users) (user_name candidate))
        (λ x e. ground arith))
    ∙ ap (λ gs. containers base ++ (map (user_entry base) all_users ++ map (group_entry base) gs))
        (keep-is_in group_name all_groups
          (λ group. is_in (map group_name all_groups) (group_name group)) (λ x e. e)))

-- Everyone who is not an administrator sees the containers, the users of exactly his own name, and
-- the groups with the name of one of his own.
pub visible_entries_other :
    (user : User) (base : Bytes) (all_users : List User) (all_groups : List Group)
    → is_member_of user admin_names ≡ false
    → visible_entries user base all_users all_groups
      ≡ containers base
        ++ (map
              (user_entry base)
              (keep (λ candidate. beq user.username (user_name candidate)) all_users)
            ++ map
                (group_entry base)
                (keep (λ group. is_in (map group_name user.groups) (group_name group)) all_groups))
unfolding visible_entries
visible_entries_other user base all_users all_groups other = rw other (
    ap
      (λ us.
        containers base
        ++ (map (user_entry base) us
            ++ map (group_entry base)
                (keep (λ group. is_in (map group_name user.groups) (group_name group)) all_groups)))
      (keep_ext (λ candidate. is_in (user.username ∷ []) (user_name candidate))
        (λ candidate. beq user.username (user_name candidate)) all_users (λ x. ground arith)))

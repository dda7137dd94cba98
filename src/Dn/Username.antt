-- ===== src/Dn/Username.antt =====
-- `usernameFromDN` reads back the names that `userDN` and `legacyUserDN` build.
use nano_ldap.Prelude.{
  ◌≡◌, ◌≢◌, refl, true, false, [], ◌∷◌, ◌++◌, arith, ap, ◌∙◌, sym, ◌⊎◌, inl, inr, Option-cases,
  some, none, append_assoc, map,
}
use nano_ldap.Text.{
  Bytes, codes, beq, strip_suffix, cut, to_lower, trim_space, trim_left, trim_right, is_space,
  lower, join,
}
use nano_ldap.Text.Case.{
  beq_iff, has, to_lower-append, trim_space_prepend, trim_right_solid, trim_right-of_trim_space,
}
use nano_ldap.Text.Suffix.{strip_suffix_sound, strip_suffix-append, strip_suffix-none}
use nano_ldap.Text.Split.{cut_sound, cut_first, split-ne-nil, split_at, join_cons}
use nano_ldap.Dn.{
  normalize_rdn, normalize_dn, user_dn, legacy_user_dn, people_base_dn, username_of, username_in,
  username_from_dn,
}
use nano_ldap.Dn.Normalize.{to_lower-normalize_dn, map-ne-nil}

-- A relative name in front is normalised by itself.
pub normalize_dn-prepend :
    (x base : Bytes)
    → has b',' x ≡ false
    → normalize_dn (x ++ (b',' ∷ base)) ≡ normalize_rdn x ++ (b',' ∷ normalize_dn base)
unfolding normalize_dn
normalize_dn-prepend x base h =
    ap (λ ps. join b',' (map normalize_rdn ps)) (split_at b',' x base h)
    ∙ join_cons b',' (normalize_rdn x) _ (map-ne-nil normalize_rdn _ (split-ne-nil b',' base))

-- A user name that `normalizeDN` leaves as it is: lower case, trimmed, not empty, with no comma.
pub record IsPlain (u : Bytes) : Type 0 where
  pub is_lower : to_lower u ≡ u
  pub is_trimmed : trim_space u ≡ u
  pub ne_nil : u ≢ []
  pub no_comma : has b',' u ≡ false

abbrev uid_rdn : Bytes → Bytes
uid_rdn u = codes "uid=" ++ u

trim_right-uid : (u : Bytes) → IsPlain u → trim_right (codes "id=" ++ u) ≡ codes "id=" ++ u
trim_right-uid [] p = absurd (p.ne_nil refl)
trim_right-uid (c ∷ u) p =
    trim_right_solid (codes "id=") u c (trim_right-of_trim_space (c ∷ u) p.is_trimmed)

normalize_rdn-uid : (u : Bytes) → IsPlain u → normalize_rdn (uid_rdn u) ≡ uid_rdn u
normalize_rdn-uid u p =
    ap to_lower
      (trim_space_prepend b'u' (codes "id=" ++ u) (unfold is_space in refl) (trim_right-uid u p))
    ∙ to_lower-append (codes "uid=") u
    ∙ rw p.is_lower (unfold to_lower lower in refl)

pub normalize_dn-user_dn :
    (base u : Bytes)
    → IsPlain u
    → normalize_dn (user_dn base u) ≡ uid_rdn u ++ (b',' ∷ normalize_dn base)
normalize_dn-user_dn base u p =
    normalize_dn-prepend (uid_rdn u) base p.no_comma
    ∙ ap (λ x. x ++ (b',' ∷ normalize_dn base)) (normalize_rdn-uid u p)

people_rdn : normalize_rdn (codes "ou=people") ≡ codes "ou=people"
unfolding to_lower lower trim_space trim_left trim_right is_space
people_rdn = refl

people_lem :
    (base : Bytes)
    → normalize_dn (people_base_dn base) ≡ codes "ou=people" ++ (b',' ∷ normalize_dn base)
people_lem base =
    normalize_dn-prepend (codes "ou=people") base refl
    ∙ ap (λ x. x ++ (b',' ∷ normalize_dn base)) people_rdn

username_of-uid : (u : Bytes) → u ≢ [] → username_of (uid_rdn u) ≡ some u
unfolding username_of
username_of-uid [] ne = absurd (ne refl)
username_of-uid (c ∷ u) ne =
    rw (cut_first b'=' (codes "uid") (c ∷ u) refl, username_of) (unfold beq in refl)

has_comma-append : (p s : Bytes) → has b',' (p ++ (b',' ∷ s)) ≡ true
has_comma-append [] s = refl
has_comma-append (c ∷ p) s = ground (arith, has_comma-append p s)

-- A name with no comma before the base does not lie in `ou=people`.
not_people :
    (x base : Bytes)
    → has b',' x ≡ false
    → strip_suffix (x ++ (b',' ∷ base)) (codes ",ou=people," ++ base) ≡ none
not_people x base h = strip_suffix-none _ _ (λ p e. clash p e)
  where
    clash : (p : Bytes) → x ++ (b',' ∷ base) ≢ p ++ (codes ",ou=people," ++ base)
    clash p e =
        let e' : x ++ (b',' ∷ base) ≡ (p ++ codes ",ou=people") ++ (b',' ∷ base) =
          e ∙ sym (append_assoc p (codes ",ou=people") (b',' ∷ base)) in
        let same : some x ≡ some (p ++ codes ",ou=people") =
          sym (strip_suffix-append x (b',' ∷ base))
          ∙ ap (λ s. strip_suffix s (b',' ∷ base)) e'
          ∙ strip_suffix-append (p ++ codes ",ou=people") (b',' ∷ base) in
        ground (arith, has_comma-append p (codes "ou=people"))

username_in-user :
    (base u : Bytes) → IsPlain u → username_in base (uid_rdn u ++ (b',' ∷ base)) ≡ some u
username_in-user base u p =
    unfold username_in in
    ground (
      arith,
      not_people (uid_rdn u) base p.no_comma,
      strip_suffix-append (uid_rdn u) (b',' ∷ base),
      username_of-uid u p.ne_nil,
    )

username_in-legacy :
    (base u : Bytes)
    → IsPlain u
    → username_in base (uid_rdn u ++ (codes ",ou=people," ++ base)) ≡ some u
username_in-legacy base u p =
    unfold username_in in
    ground (
      arith,
      strip_suffix-append (uid_rdn u) (codes ",ou=people," ++ base),
      username_of-uid u p.ne_nil,
    )

-- A bind by `userDN` or by `legacyUserDN` of a plain name, under any base DN, is a bind as that
-- user. A plain name is lower-case, trimmed, not empty and without a comma.
pub username_from_dn-user_dn :
    (base u : Bytes)
    → IsPlain u
    → (username_from_dn base (user_dn base u) ≡ some u)
      × (username_from_dn base (legacy_user_dn base u) ≡ some u)
username_from_dn-user_dn base u p =
    let nb : Bytes = normalize_dn base in
    let legacy : normalize_dn (legacy_user_dn base u) ≡ uid_rdn u ++ (codes ",ou=people," ++ nb) =
      normalize_dn-user_dn (people_base_dn base) u p
      ∙ ap (λ x. uid_rdn u ++ (b',' ∷ x)) (people_lem base) in
    (
      (unfold username_from_dn in
          (ap (username_in nb) (normalize_dn-user_dn base u p) ∙ username_in-user nb u p)),
      (unfold username_from_dn in (ap (username_in nb) legacy ∙ username_in-legacy nb u p)),
    )

lower_parts : (x y : Bytes) → to_lower (x ++ y) ≡ x ++ y → (to_lower x ≡ x) × (to_lower y ≡ y)
unfolding to_lower
lower_parts [] y e = (refl, e)
lower_parts (c ∷ x) y e = ground (arith, lower_parts x y)

-- What a name that is accepted looks like.
pub record Names (base dn u : Bytes) : Type 0 where
  pub ne_nil : u ≢ []
  pub is_lower : to_lower u ≡ u
  pub shape :
      (normalize_dn dn ≡ uid_rdn u ++ (b',' ∷ normalize_dn base))
      ⊎ (normalize_dn dn ≡ uid_rdn u ++ (codes ",ou=people," ++ normalize_dn base))

username_of_sound : (rdn u : Bytes) → username_of rdn ≡ some u → (rdn ≡ uid_rdn u) × (u ≢ [])
unfolding username_of
username_of_sound rdn u e = elim (Option-cases (cut b'=' rdn)) [
  | inl q ↦ absurd (ground arith)
  | inr ((attr, value), q) ↦ (
    ground (arith, cut_sound b'=' rdn attr value q, beq_iff attr (codes "uid")),
    λ n. ground arith,
  )
]

username_in_sound :
    (base dn u : Bytes)
    → username_in base dn ≡ some u
    → (u ≢ [])
      × ((dn ≡ uid_rdn u ++ (b',' ∷ base)) ⊎ (dn ≡ uid_rdn u ++ (codes ",ou=people," ++ base)))
username_in_sound base dn u e =
    elim (Option-cases (strip_suffix dn (codes ",ou=people," ++ base))) [
      | inr (rdn, q) ↦
          let (r, ne) = username_of_sound rdn u (unfold username_in in ground arith) in
          (ne, inr (rw r at (strip_suffix_sound dn _ rdn q)))
      | inl q ↦ elim (Option-cases (strip_suffix dn (b',' ∷ base))) [
        | inr (rdn, q') ↦
            let (r, ne) = username_of_sound rdn u (unfold username_in in ground arith) in
            (ne, inl (rw r at (strip_suffix_sound dn _ rdn q')))
        | inl q' ↦ absurd (unfold username_in in ground arith)
      ]
    ]

uid_lower : (u t : Bytes) → to_lower (uid_rdn u ++ t) ≡ uid_rdn u ++ t → to_lower u ≡ u
uid_lower u t e = (lower_parts (codes "uid=") u (lower_parts (uid_rdn u) t e).0).1

-- A bind DN is accepted only if its normalised form is `uid=NAME` before the normalised base, or
-- before that of `ou=people`; the name is not empty, and it is in lower case whatever the client
-- wrote.
pub username_from_dn_sound :
    (base dn u : Bytes) → username_from_dn base dn ≡ some u → Names base dn u
unfolding username_from_dn
username_from_dn_sound base dn u e =
    let (ne, shape) = username_in_sound (normalize_dn base) (normalize_dn dn) u e in
    record {
      ne_nil = ne;
      is_lower = elim shape [
        | inl s ↦ uid_lower u _ (rw s at (to_lower-normalize_dn dn))
        | inr s ↦ uid_lower u _ (rw s at (to_lower-normalize_dn dn))
      ];
      shape = shape;
    }

-- No bind DN names a user whose stored name has an upper-case letter.
pub username_from_dn-ne-upper :
    (base dn u : Bytes) → to_lower u ≢ u → username_from_dn base dn ≢ some u
username_from_dn-ne-upper base dn u h e = h (username_from_dn_sound base dn u e).is_lower

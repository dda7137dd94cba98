-- ===== src/Dn/Scope.antt =====
-- What `dnWithinScope` accepts, in terms of the normalised names.
use nano_ldap.Prelude.{
  ℕ, ◌≡◌, ◌≢◌, true, [], ◌∷◌, ◌++◌, arith, ap, ◌∙◌, sym, ◌⊎◌, inl, inr, ◌↔◌, Option-cases, is_some,
  Bool-cases, append_assoc, ◌||◌,
}
use nano_ldap.Text.{Bytes, beq, strip_suffix, cut}
use nano_ldap.Text.Case.{beq_iff}
use nano_ldap.Text.Suffix.{strip_suffix_sound, strip_suffix-append}
use nano_ldap.Text.Split.{cut_sound}
use nano_ldap.Dn.{
  normalize_dn, parent_dn, within_scope, dn_within_scope, scope_single, scope_subtree,
}
use nano_ldap.Dn.Normalize.{normalize_dn_idem}

-- `entry` is `base`, or stands below it: a relative name and a comma come before `base`.
abbrev pub IsUnder : Bytes → Bytes → Type 0
IsUnder base entry = (entry ≡ base) ⊎ ((p : Bytes) × (entry ≡ p ++ (b',' ∷ base)))

has_suffix_iff : (s t : Bytes) → (is_some (strip_suffix s t) ≡ true) ↔ ((p : Bytes) × (s ≡ p ++ t))
has_suffix_iff s t = (to, from)
  where
    to : is_some (strip_suffix s t) ≡ true → (p : Bytes) × (s ≡ p ++ t)
    to h = elim (Option-cases (strip_suffix s t)) [
      | inl n ↦ ground arith
      | inr (p, e) ↦ (p, strip_suffix_sound s t p e)
    ]

    from : (p : Bytes) × (s ≡ p ++ t) → is_some (strip_suffix s t) ≡ true
    from (p, e) = rw (e, strip_suffix-append p t)

subtree_iff :
    (base entry : Bytes) → (within_scope base scope_subtree entry ≡ true) ↔ IsUnder base entry
unfolding within_scope
subtree_iff base entry = (to, from)
  where
    to : beq entry base || is_some (strip_suffix entry (b',' ∷ base)) ≡ true → IsUnder base entry
    to h = elim (Bool-cases (beq entry base)) [
      | inl e ↦ inl ((beq_iff entry base).0 e)
      | inr e ↦ inr ((has_suffix_iff entry (b',' ∷ base)).0 (ground arith))
    ]

    from : IsUnder base entry → beq entry base || is_some (strip_suffix entry (b',' ∷ base)) ≡ true
    from (inl e) = ground (arith, beq_iff entry base)
    from (inr u) = ground (arith, (has_suffix_iff entry (b',' ∷ base)).1 u)

-- A subtree search takes an entry exactly when its normalised name is the base's or ends in a comma
-- and the base's.
pub dn_within_scope-subtree_iff :
    (base entry : Bytes)
    → (dn_within_scope base scope_subtree entry ≡ true)
      ↔ IsUnder (normalize_dn base) (normalize_dn entry)
unfolding dn_within_scope
dn_within_scope-subtree_iff base entry = subtree_iff (normalize_dn base) (normalize_dn entry)

IsUnder-trans : (a b c : Bytes) → IsUnder a b → IsUnder b c → IsUnder a c
IsUnder-trans a b c (inl e) v = rw e at v
IsUnder-trans a b c (inr (p, e)) (inl f) = inr (p, f ∙ e)
IsUnder-trans a b c (inr (p, e)) (inr (q, f)) =
    inr (q ++ (b',' ∷ p), f ∙ rw e (sym (append_assoc q (b',' ∷ p) (b',' ∷ a))))

-- Subtrees nest: what lies under an entry of a subtree lies in the subtree.
pub dn_within_scope-subtree_trans :
    (base middle entry : Bytes)
    → dn_within_scope base scope_subtree middle ≡ true
    → dn_within_scope middle scope_subtree entry ≡ true
    → dn_within_scope base scope_subtree entry ≡ true
dn_within_scope-subtree_trans base middle entry h k = (dn_within_scope-subtree_iff base entry).1 (
    IsUnder-trans _ _ _ ((dn_within_scope-subtree_iff base middle).0 h)
      ((dn_within_scope-subtree_iff middle entry).0 k))

parent_dn_sound : (base entry : Bytes) → base ≢ [] → parent_dn entry ≡ base → IsUnder base entry
unfolding parent_dn
parent_dn_sound base entry ne e = elim (Option-cases (cut b',' entry)) [
  | inl q ↦ absurd (ne (ground arith))
  | inr ((x, y), q) ↦ inr (x, ground (arith, cut_sound b',' entry x y q))
]

single-IsUnder :
    (base entry : Bytes)
    → base ≢ []
    → within_scope base scope_single entry ≡ true
    → IsUnder base entry
unfolding within_scope
single-IsUnder base entry ne h = parent_dn_sound base entry ne ((beq_iff _ _).0 h)

-- A single-level search finds nothing that a subtree search does not, where the base is not empty.
pub dn_within_scope-single_subtree :
    (base entry : Bytes)
    → normalize_dn base ≢ []
    → dn_within_scope base scope_single entry ≡ true
    → dn_within_scope base scope_subtree entry ≡ true
unfolding dn_within_scope
dn_within_scope-single_subtree base entry ne h =
    (subtree_iff (normalize_dn base) (normalize_dn entry)).1
      (single-IsUnder (normalize_dn base) (normalize_dn entry) ne h)

-- Case, and the white space round the parts, of the base or of the entry's name make no difference
-- to a scope test.
pub dn_within_scope-normalize_dn :
    (base : Bytes) (scope : ℕ) (entry : Bytes)
    → dn_within_scope (normalize_dn base) scope (normalize_dn entry)
      ≡ dn_within_scope base scope entry
dn_within_scope-normalize_dn base scope entry =
    unfold dn_within_scope in
    ap (λ (b : Bytes). within_scope b scope (normalize_dn (normalize_dn entry)))
      (normalize_dn_idem base)
    ∙ ap (within_scope (normalize_dn base) scope) (normalize_dn_idem entry)

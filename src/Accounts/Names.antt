-- ===== src/Accounts/Names.antt =====
-- `uniqueNames` makes a set of names, up to their case.
use nano_ldap.Prelude.{
  ◌≡◌, refl, Bool, true, false, ◌||◌, List, [], ◌∷◌, map, arith, Bool-cases, inl, inr, ◌∙◌, sym, ap,
}
use nano_ldap.Text.{Bytes, beq, is_empty, to_lower, trim_space}
use nano_ldap.Text.Case.{beq_iff, beq_self}
use nano_ldap.Accounts.{was_seen, unique_from, unique_names}

-- No two names differ at most in case.
abbrev pub AreUnique : List Bytes → Type 0
AreUnique [] = Unit
AreUnique (x ∷ xs) = (was_seen (map to_lower xs) (to_lower x) ≡ false) × AreUnique xs

-- The keys of the names of a form that are not blank.
abbrev pub keys : List Bytes → List Bytes
keys [] = []
keys (name ∷ names) =
    let rest = keys names in
    elim (is_empty (trim_space name)) [ true ↦ rest | false ↦ to_lower (trim_space name) ∷ rest ]

module _ (seen : List Bytes) (name : Bytes) (names : List Bytes) where
  from_blank :
      is_empty (trim_space name) ≡ true → unique_from seen (name ∷ names) ≡ unique_from seen names
  unfolding unique_from
  from_blank blank = ground arith

  from_old :
      is_empty (trim_space name) ≡ false
      → was_seen seen (to_lower (trim_space name)) ≡ true
      → unique_from seen (name ∷ names) ≡ unique_from seen names
  unfolding unique_from
  from_old given old = ground arith

  from_new :
      is_empty (trim_space name) ≡ false
      → was_seen seen (to_lower (trim_space name)) ≡ false
      → unique_from seen (name ∷ names)
        ≡ trim_space name ∷ unique_from (to_lower (trim_space name) ∷ seen) names
  unfolding unique_from
  from_new given fresh = ground arith

  keys_blank : is_empty (trim_space name) ≡ true → keys (name ∷ names) ≡ keys names
  keys_blank blank = ground arith

  keys_given :
      is_empty (trim_space name) ≡ false
      → keys (name ∷ names) ≡ to_lower (trim_space name) ∷ keys names
  keys_given given = ground arith

-- Without the list code: the tests of the names behind `name` come first and last.
or_moves : (a b c s : Bool) → (b || (a || s)) ≡ (c || (a || s)) → ((a || b) || s) ≡ ((a || c) || s)
or_moves true b c s e = refl
or_moves false b c s e = e

or_seen :
    (a b c s : Bool) → (a ≡ true → s ≡ true) → (b || s) ≡ (c || s) → (b || s) ≡ ((a || c) || s)
or_seen true b c s h e = ground (arith, h refl)
or_seen false b c s h e = e

unique_from-was_seen :
    (seen names : List Bytes) (k : Bytes)
    → (was_seen (map to_lower (unique_from seen names)) k || was_seen seen k)
      ≡ (was_seen (keys names) k || was_seen seen k)
unique_from-was_seen seen [] k = unfold unique_from in refl
unique_from-was_seen seen (name ∷ names) k = elim (Bool-cases (is_empty (trim_space name))) [
  | inl blank ↦
      rw (from_blank seen name names blank, keys_blank seen name names blank)
        (unique_from-was_seen seen names k)
  | inr given ↦ elim (Bool-cases (was_seen seen (to_lower (trim_space name)))) [
    | inl old ↦
        rw (from_old seen name names given old, keys_given seen name names given)
          (or_seen (beq (to_lower (trim_space name)) k) _ _ (was_seen seen k)
            (λ e. sym (ap (was_seen seen) ((beq_iff (to_lower (trim_space name)) k).0 e)) ∙ old)
            (unique_from-was_seen seen names k))
    | inr fresh ↦
        rw (from_new seen name names given fresh, keys_given seen name names given)
          (or_moves (beq (to_lower (trim_space name)) k) _ _ (was_seen seen k)
            (unique_from-was_seen (to_lower (trim_space name) ∷ seen) names k))
  ]
]

unique_from-fresh :
    (seen names : List Bytes) (k : Bytes)
    → was_seen seen k ≡ true
    → was_seen (map to_lower (unique_from seen names)) k ≡ false
unique_from-fresh seen [] k h = unfold unique_from in refl
unique_from-fresh seen (name ∷ names) k h = elim (Bool-cases (is_empty (trim_space name))) [
  | inl blank ↦ rw (from_blank seen name names blank) (unique_from-fresh seen names k h)
  | inr given ↦ elim (Bool-cases (was_seen seen (to_lower (trim_space name)))) [
    | inl old ↦ rw (from_old seen name names given old) (unique_from-fresh seen names k h)
    | inr fresh ↦
        let key : Bytes = to_lower (trim_space name) in
        let other : beq key k ≡ false = elim (Bool-cases (beq key k)) [
          | inl e ↦ absurd (ground (arith, sym (ap (was_seen seen) ((beq_iff key k).0 e)) ∙ fresh))
          | inr e ↦ e
        ] in
        let later = unique_from-fresh (key ∷ seen) names k (rw other h) in
        rw (from_new seen name names given fresh) (rw other later)
  ]
]

unique_from-AreUnique : (seen names : List Bytes) → AreUnique (unique_from seen names)
unique_from-AreUnique seen [] = unfold unique_from in tt
unique_from-AreUnique seen (name ∷ names) = elim (Bool-cases (is_empty (trim_space name))) [
  | inl blank ↦ rw (from_blank seen name names blank) (unique_from-AreUnique seen names)
  | inr given ↦ elim (Bool-cases (was_seen seen (to_lower (trim_space name)))) [
    | inl old ↦ rw (from_old seen name names given old) (unique_from-AreUnique seen names)
    | inr fresh ↦
        let key : Bytes = to_lower (trim_space name) in
        rw (from_new seen name names given fresh) (
          unique_from-fresh (key ∷ seen) names key (rw (beq_self key) refl),
          unique_from-AreUnique (key ∷ seen) names,
        )
  ]
]

or_false : (a b : Bool) → (a || false) ≡ (b || false) → a ≡ b
or_false a b e = ground arith

-- No two names that `uniqueNames` returns differ at most in case, and it returns a name up to case
-- exactly where the form has one that is not blank and trims to it.
pub unique_names-AreUnique :
    (names : List Bytes) (k : Bytes)
    → AreUnique (unique_names names)
      × (was_seen (map to_lower (unique_names names)) k ≡ was_seen (keys names) k)
unfolding unique_names
unique_names-AreUnique names k =
    (unique_from-AreUnique [] names, or_false _ _ (unique_from-was_seen [] names k))

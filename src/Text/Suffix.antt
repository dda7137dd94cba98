-- ===== src/Text/Suffix.antt =====
-- `strip_suffix` decides whether a text ends in another.
use nano_ldap.Prelude.{
  ℕ, ◌≡◌, refl, ◌≢◌, false, ◌∷◌, [], ◌++◌, arith, Bool-cases, inl, inr, some, none, Option-cases,
  length, length-append, ap, Bool-false,
}
use nano_ldap.Text.{Bytes, beq, strip_suffix}
use nano_ldap.Text.Case.{beq_iff, beq_self}

pub strip_suffix_sound : (s t p : Bytes) → strip_suffix s t ≡ some p → s ≡ p ++ t
unfolding strip_suffix
strip_suffix_sound [] t p e = ground (arith, beq_iff [] t)
strip_suffix_sound (c ∷ s) t p e = elim (Bool-cases (beq (c ∷ s) t)) [
  | inl q ↦ ground (arith, beq_iff (c ∷ s) t)
  | inr q ↦ elim (Option-cases (strip_suffix s t)) [
    | inl n ↦ ground arith
    | inr (r, n) ↦ ground (arith, strip_suffix_sound s t r n)
  ]
]

longer : (c : ℕ) (p t : Bytes) → beq (c ∷ (p ++ t)) t ≡ false
longer c p t =
    Bool-false {P = c ∷ (p ++ t) ≡ t} (λ e. (beq_iff _ _).0 e)
      (λ e. omega (arith, ap length e, length-append {0} p t))

pub strip_suffix-append : (p t : Bytes) → strip_suffix (p ++ t) t ≡ some p
unfolding strip_suffix
strip_suffix-append [] [] = unfold beq in refl
strip_suffix-append [] (d ∷ t) = rw (beq_self (d ∷ t))
strip_suffix-append (c ∷ p) t = rw (longer c p t, strip_suffix-append p t)

pub strip_suffix-none : (s t : Bytes) → ((p : Bytes) → s ≢ p ++ t) → strip_suffix s t ≡ none
strip_suffix-none s t h = elim (Option-cases (strip_suffix s t)) [
  | inl n ↦ n
  | inr (p, e) ↦ absurd (h p (strip_suffix_sound s t p e))
]

-- ===== src/Text/Case.antt =====
-- Equality, case folding and trimming of byte strings.
use nano_ldap.Prelude.{
  ℕ, ◌≡◌, refl, ◌↔◌, Bool, true, false, ◌∷◌, [], ◌++◌, arith, ◌==◌, any, ap, ◌∙◌, sym,
}
use nano_ldap.Text.{
  Bytes, beq, lower, to_lower, is_space, trim_left, trim_right, trim_space, is_empty,
}

pub beq_iff : (s t : Bytes) → (beq s t ≡ true) ↔ (s ≡ t)
unfolding beq
beq_iff (x ∷ s) (y ∷ t) = ground (arith, beq_iff s t)
beq_iff _ _ = ground arith

pub beq_self : (s : Bytes) → beq s s ≡ true
beq_self s = (beq_iff s s).1 refl

pub lower-lower : (c : ℕ) → lower (lower c) ≡ lower c
unfolding lower
lower-lower c = ground arith

pub to_lower-to_lower : (s : Bytes) → to_lower (to_lower s) ≡ to_lower s
unfolding to_lower
to_lower-to_lower [] = refl
to_lower-to_lower (c ∷ s) = cc (lower-lower c, to_lower-to_lower s)

pub to_lower-append : (s t : Bytes) → to_lower (s ++ t) ≡ to_lower s ++ to_lower t
unfolding to_lower
to_lower-append [] t = refl
to_lower-append (c ∷ s) t = cc (to_lower-append s t)

is_space-lower : (c : ℕ) → is_space (lower c) ≡ is_space c
unfolding is_space lower
is_space-lower c = ground arith

is_empty-to_lower : (s : Bytes) → is_empty (to_lower s) ≡ is_empty s
unfolding to_lower
is_empty-to_lower [] = refl
is_empty-to_lower (c ∷ s) = refl

trim_left-to_lower : (s : Bytes) → trim_left (to_lower s) ≡ to_lower (trim_left s)
unfolding trim_left to_lower
trim_left-to_lower [] = refl
trim_left-to_lower (c ∷ s) = ground (arith, is_space-lower c, trim_left-to_lower s)

trim_right-to_lower : (s : Bytes) → trim_right (to_lower s) ≡ to_lower (trim_right s)
unfolding trim_right to_lower
trim_right-to_lower [] = refl
trim_right-to_lower (c ∷ s) =
    ground (arith, is_space-lower c, trim_right-to_lower s, is_empty-to_lower (trim_right s))

pub trim_space-to_lower : (s : Bytes) → trim_space (to_lower s) ≡ to_lower (trim_space s)
unfolding trim_space
trim_space-to_lower s = ap trim_right (trim_left-to_lower s) ∙ trim_right-to_lower (trim_left s)

-- The first byte, if there is one, is no white space.
abbrev StartsSolid : Bytes → Type 0
StartsSolid [] = Unit
StartsSolid (c ∷ s) = is_space c ≡ false

trim_left-StartsSolid : (s : Bytes) → StartsSolid (trim_left s)
unfolding trim_left
trim_left-StartsSolid [] = tt
trim_left-StartsSolid (c ∷ s) = ground (arith, trim_left-StartsSolid s)

trim_left_self : (s : Bytes) → StartsSolid s → trim_left s ≡ s
unfolding trim_left
trim_left_self [] h = refl
trim_left_self (c ∷ s) h = ground arith

trim_right-StartsSolid : (s : Bytes) → StartsSolid s → StartsSolid (trim_right s)
unfolding trim_right
trim_right-StartsSolid [] h = tt
trim_right-StartsSolid (c ∷ s) h = ground arith

trim_right-trim_right : (s : Bytes) → trim_right (trim_right s) ≡ trim_right s
unfolding trim_right
trim_right-trim_right [] = refl
trim_right-trim_right (c ∷ s) = ground (arith, trim_right-trim_right s)

pub trim_space-trim_space : (s : Bytes) → trim_space (trim_space s) ≡ trim_space s
unfolding trim_space
trim_space-trim_space s =
    ap trim_right (
      trim_left_self (trim_right (trim_left s))
        (trim_right-StartsSolid (trim_left s) (trim_left-StartsSolid s)))
    ∙ trim_right-trim_right (trim_left s)

-- The bytes of a text do not hold `b`.
abbrev pub has : ℕ → Bytes → Bool
has b = any (λ c. c == b)

has-trim_left : (b : ℕ) (s : Bytes) → has b s ≡ false → has b (trim_left s) ≡ false
unfolding trim_left
has-trim_left b [] h = refl
has-trim_left b (c ∷ s) h = ground (arith, has-trim_left b s)

has-trim_right : (b : ℕ) (s : Bytes) → has b s ≡ false → has b (trim_right s) ≡ false
unfolding trim_right
has-trim_right b [] h = refl
has-trim_right b (c ∷ s) h = ground (arith, has-trim_right b s)

pub has-trim_space : (b : ℕ) (s : Bytes) → has b s ≡ false → has b (trim_space s) ≡ false
unfolding trim_space
has-trim_space b s h = has-trim_right b (trim_left s) (has-trim_left b s h)

-- Lower case makes no comma and no equals sign.
pub has-to_lower_comma : (s : Bytes) → has b',' s ≡ false → has b',' (to_lower s) ≡ false
unfolding to_lower lower
has-to_lower_comma [] h = refl
has-to_lower_comma (c ∷ s) h = ground (arith, has-to_lower_comma s)

pub has-append : (b : ℕ) (s t : Bytes) → has b s ≡ false → has b t ≡ false → has b (s ++ t) ≡ false
has-append b [] t hs ht = ht
has-append b (c ∷ s) t hs ht = ground (arith, has-append b s t)

-- A text with a solid first and last byte is not trimmed.
pub trim_space_prepend :
    (c : ℕ) (s : Bytes) → is_space c ≡ false → trim_right s ≡ s → trim_space (c ∷ s) ≡ c ∷ s
unfolding trim_space trim_left trim_right
trim_space_prepend c s h e = ground arith

pub trim_right_solid :
    (s t : Bytes) (c : ℕ) → trim_right (c ∷ t) ≡ c ∷ t → trim_right (s ++ (c ∷ t)) ≡ s ++ (c ∷ t)
unfolding trim_right
trim_right_solid [] t c e = e
trim_right_solid (d ∷ []) t c e = ground arith
trim_right_solid (d ∷ x ∷ s) t c e = ground (arith, trim_right_solid (x ∷ s) t c e)

-- A trimmed text keeps its last byte when it is trimmed on the right alone.
pub trim_right-of_trim_space : (s : Bytes) → trim_space s ≡ s → trim_right s ≡ s
unfolding trim_space
trim_right-of_trim_space s e = ap trim_right (sym e) ∙ trim_right-trim_right (trim_left s) ∙ e

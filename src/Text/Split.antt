-- ===== src/Text/Split.antt =====
-- `split`, `join` and `cut` at a byte.
use nano_ldap.Prelude.{
  ℕ, ◌≡◌, refl, ◌≢◌, false, List, ◌∷◌, [], ◌++◌, arith, Bool-cases, ◌==◌, inl, inr, All, some, ap,
  Option-cases,
}
use nano_ldap.Text.{Bytes, split, join, cut, cons_head}
use nano_ldap.Text.Case.{has}

pub split-ne-nil : (b : ℕ) (s : Bytes) → split b s ≢ []
unfolding split
split-ne-nil b [] = λ e. cc
split-ne-nil b (c ∷ s) = ground arith

join-cons_head : (b c : ℕ) (xs : List Bytes) → xs ≢ [] → join b (cons_head c xs) ≡ c ∷ join b xs
unfolding join
join-cons_head b c [] h = absurd (h refl)
join-cons_head b c (x ∷ []) h = refl
join-cons_head b c (x ∷ y ∷ xs) h = refl

join_nil_head : (b : ℕ) (xs : List Bytes) → xs ≢ [] → join b ([] ∷ xs) ≡ b ∷ join b xs
unfolding join
join_nil_head b [] h = absurd (h refl)
join_nil_head b (x ∷ xs) h = refl

-- Joining the pieces gives the text back.
pub join-split : (b : ℕ) (s : Bytes) → join b (split b s) ≡ s
unfolding split
join-split b [] = unfold join in refl
join-split b (c ∷ s) = ground (
  arith,
  join_nil_head b (split b s) (split-ne-nil b s),
  join-cons_head b c (split b s) (split-ne-nil b s),
  join-split b s,
)

abbrev pub Pieces : ℕ → List Bytes → Type 0
Pieces b = All (λ x. has b x ≡ false)

Pieces-cons_head :
    (b c : ℕ) (xs : List Bytes) → (c == b) ≡ false → Pieces b xs → Pieces b (cons_head c xs)
Pieces-cons_head b c [] h p = ground arith
Pieces-cons_head b c (x ∷ xs) h p = ground arith

pub split-Pieces : (b : ℕ) (s : Bytes) → Pieces b (split b s)
unfolding split
split-Pieces b [] = ground arith
split-Pieces b (c ∷ s) = elim (Bool-cases (c == b)) [
  | inl e ↦ ground (arith, split-Pieces b s)
  | inr e ↦ ground (arith, Pieces-cons_head b c (split b s) e (split-Pieces b s))
]

split_piece : (b : ℕ) (x : Bytes) → has b x ≡ false → split b x ≡ x ∷ []
unfolding split
split_piece b [] h = refl
split_piece b (c ∷ x) h = ground (arith, split_piece b x)

pub split_at : (b : ℕ) (x t : Bytes) → has b x ≡ false → split b (x ++ (b ∷ t)) ≡ x ∷ split b t
unfolding split
split_at b [] t h = ground arith
split_at b (c ∷ x) t h = ground (arith, split_at b x t)

-- Pieces that do not hold the separator are read back.
pub split-join :
    (b : ℕ) (x : Bytes) (xs : List Bytes) → Pieces b (x ∷ xs) → split b (join b (x ∷ xs)) ≡ x ∷ xs
unfolding join
split-join b x [] (h, _) = split_piece b x h
split-join b x (y ∷ xs) (h, p) =
    rw (split_at b x (join b (y ∷ xs)) h) (ap (◌∷◌ x) (split-join b y xs p))

pub join_cons :
    (b : ℕ) (x : Bytes) (xs : List Bytes) → xs ≢ [] → join b (x ∷ xs) ≡ x ++ (b ∷ join b xs)
unfolding join
join_cons b x [] h = absurd (h refl)
join_cons b x (y ∷ xs) h = refl

-- `cut` splits at the first occurrence.
pub cut_first : (b : ℕ) (x y : Bytes) → has b x ≡ false → cut b (x ++ (b ∷ y)) ≡ some (x, y)
unfolding cut
cut_first b [] y h = ground arith
cut_first b (c ∷ x) y h = ground (arith, cut_first b x y)

pub cut_sound :
    (b : ℕ) (s x y : Bytes) → cut b s ≡ some (x, y) → (s ≡ x ++ (b ∷ y)) × (has b x ≡ false)
unfolding cut
cut_sound b [] x y e = cc
cut_sound b (c ∷ s) x y e = elim (Bool-cases (c == b)) [
  | inl same ↦ ground arith
  | inr other ↦ elim (Option-cases (cut b s)) [
    | inl q ↦ ground arith
    | inr ((x', y'), q) ↦ ground (arith, cut_sound b s x' y' q)
  ]
]

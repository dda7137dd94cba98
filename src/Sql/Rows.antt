-- ===== src/Sql/Rows.antt =====
-- Rows: tests, unique keys, selection and order.
use nano_ldap.Prelude.{
  ◌≡◌, refl, Bool, true, false, ◌&&◌, ◌||◌, List, [], ◌∷◌, ◌++◌, map, keep, any, All, arith, none,
  some, Bool-cases, inl, inr, ◌∙◌, ap,
}
use nano_ldap.Text.{Bytes}
use nano_ldap.Sql.{first, insert_by, order_by}

-- No two rows agree on a column; `same` compares them by it.
abbrev pub Uniq : {A : Type 0} → (A → A → Bool) → List A → Type 0
Uniq same [] = Unit
Uniq same (x ∷ xs) = (any (same x) xs ≡ false) × Uniq same xs

module _ {A : Type 0} where
  pub any-append : (p : A → Bool) (xs ys : List A) → any p (xs ++ ys) ≡ (any p xs || any p ys)
  any-append p [] ys = refl
  any-append p (x ∷ xs) ys = ground (arith, any-append p xs ys)

  pub any-keep : (p q : A → Bool) (xs : List A) → any p (keep q xs) ≡ any (λ x. q x && p x) xs
  any-keep p q [] = refl
  any-keep p q (x ∷ xs) = ground (arith, any-keep p q xs)

  pub any_ext : (p q : A → Bool) (xs : List A) → ((x : A) → p x ≡ q x) → any p xs ≡ any q xs
  any_ext p q [] h = refl
  any_ext p q (x ∷ xs) h = ground (arith, h x, any_ext p q xs h)

  pub any_imp :
      (p q : A → Bool) (xs : List A)
      → ((x : A) → p x ≡ true → q x ≡ true)
      → any q xs ≡ false
      → any p xs ≡ false
  any_imp p q [] h e = refl
  any_imp p q (x ∷ xs) h e = ground (arith, h x, any_imp p q xs h)

  pub any-map :
      {B : Type 0} (p : B → Bool) (f : A → B) (xs : List A)
      → any p (map f xs) ≡ any (λ x. p (f x)) xs
  any-map p f [] = refl
  any-map p f (x ∷ xs) = ground (arith, any-map p f xs)

  pub first-any :
      (p : A → Bool) (xs : List A) → any p xs ≡ (elim (first p xs) [ none ↦ false | some _ ↦ true ])
  first-any p [] = refl
  first-any p (x ∷ xs) = ground (arith, first-any p xs)

  pub first_none : (p : A → Bool) (xs : List A) → any p xs ≡ false → first p xs ≡ none
  first_none p [] h = refl
  first_none p (x ∷ xs) h = ground (arith, first_none p xs)

  pub first-append :
      (p : A → Bool) (xs ys : List A)
      → first p (xs ++ ys) ≡ (elim (first p xs) [ none ↦ first p ys | some x ↦ some x ])
  first-append p [] ys = refl
  first-append p (x ∷ xs) ys = ground (arith, first-append p xs ys)

  pub first_sound : (p : A → Bool) (xs : List A) (x : A) → first p xs ≡ some x → p x ≡ true
  first_sound p [] x e = cc
  first_sound p (y ∷ ys) x e = ground (arith, first_sound p ys x)

  -- A selection that the test allows finds the same row.
  pub first-keep :
      (p q : A → Bool) (xs : List A)
      → ((x : A) → p x ≡ true → q x ≡ true)
      → first p (keep q xs) ≡ first p xs
  first-keep p q [] h = refl
  first-keep p q (x ∷ xs) h = ground (arith, h x, first-keep p q xs h)

  pub first-keep_not :
      (p q : A → Bool) (xs : List A)
      → ((x : A) → p x ≡ true → q x ≡ false)
      → first p (keep q xs) ≡ none
  first-keep_not p q [] h = refl
  first-keep_not p q (x ∷ xs) h = ground (arith, h x, first-keep_not p q xs h)

  pub first-map :
      (p : A → Bool) (f : A → A) (xs : List A)
      → first p (map f xs) ≡ (elim (first (λ x. p (f x)) xs) [ none ↦ none | some x ↦ some (f x) ])
  first-map p f [] = refl
  first-map p f (x ∷ xs) = ground (arith, first-map p f xs)

  pub first-map-some :
      (p : A → Bool) (f : A → A) (xs : List A) (x : A)
      → first (λ y. p (f y)) xs ≡ some x
      → first p (map f xs) ≡ some (f x)
  first-map-some p f xs x e = ground (arith, first-map p f xs)

  -- A change that leaves the rows of a test alone does not change what the test finds.
  pub first-map_self :
      (p : A → Bool) (f : A → A) (xs : List A)
      → ((x : A) → p (f x) ≡ p x)
      → ((x : A) → p x ≡ true → f x ≡ x)
      → first p (map f xs) ≡ first p xs
  first-map_self p f [] h k = refl
  first-map_self p f (x ∷ xs) h k = ground (arith, h x, k x, first-map_self p f xs h k)

  pub keep_ext : (p q : A → Bool) (xs : List A) → ((x : A) → p x ≡ q x) → keep p xs ≡ keep q xs
  keep_ext p q [] h = refl
  keep_ext p q (x ∷ xs) h = ground (arith, h x, keep_ext p q xs h)

  pub Uniq-append :
      (same : A → A → Bool) (xs : List A) (y : A)
      → Uniq same xs
      → any (λ x. same x y) xs ≡ false
      → Uniq same (xs ++ y ∷ [])
  Uniq-append same [] y u h = (refl, tt)
  Uniq-append same (x ∷ xs) y u h =
      ground (arith, any-append (same x) xs (y ∷ []), Uniq-append same xs y)

  pub Uniq-keep :
      (same : A → A → Bool) (q : A → Bool) (xs : List A) → Uniq same xs → Uniq same (keep q xs)
  Uniq-keep same q [] u = tt
  Uniq-keep same q (x ∷ xs) u = ground (
    arith,
    any-keep (same x) q xs,
    any_imp (λ y. q y && same x y) (same x) xs (λ y e. ground arith),
    Uniq-keep same q xs,
  )

  pub All-append : (P : A → Type 0) (xs ys : List A) → All P xs → All P ys → All P (xs ++ ys)
  All-append P [] ys h k = k
  All-append P (x ∷ xs) ys (a, h) k = (a, All-append P xs ys h k)

  pub All-keep : (P : A → Type 0) (q : A → Bool) (xs : List A) → All P xs → All P (keep q xs)
  All-keep P q [] h = tt
  All-keep P q (x ∷ xs) (a, h) = elim (Bool-cases (q x)) [
    | inl e ↦ rw e (a, All-keep P q xs h)
    | inr e ↦ rw e (All-keep P q xs h)
  ]

  pub All-imp : (P Q : A → Type 0) (xs : List A) → ((x : A) → P x → Q x) → All P xs → All Q xs
  All-imp P Q [] f h = tt
  All-imp P Q (x ∷ xs) f (a, h) = (f x a, All-imp P Q xs f h)

  any-insert_by :
      (key : A → Bytes) (p : A → Bool) (x : A) (xs : List A)
      → any p (insert_by key x xs) ≡ (p x || any p xs)
  any-insert_by key p x [] = refl
  any-insert_by key p x (y ∷ ys) = ground (arith, any-insert_by key p x ys)

  -- ORDER BY keeps the rows.
  pub any-order_by :
      (key : A → Bytes) (p : A → Bool) (xs : List A) → any p (order_by key xs) ≡ any p xs
  any-order_by key p [] = refl
  any-order_by key p (x ∷ xs) =
      any-insert_by key p x (order_by key xs) ∙ ap (λ b. p x || b) (any-order_by key p xs)

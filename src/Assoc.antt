-- ===== src/Assoc.antt =====
-- Go's `map[string]V` as an association list with distinct keys. The order of the list is the order
-- in which `range` visits the keys, which Go leaves open.
use nano_ldap.Prelude.{
  ◌+◌, ◌≤◌, ◌≡◌, ◌≢◌, refl, List, [], ◌∷◌, arith, if◌then◌else◌, Option, none, some, Bool-cases,
  inl, inr, length, Option-cases,
}
use nano_ldap.Text.{Bytes, beq}
use nano_ldap.Text.Case.{beq_iff}

abbrev pub Map {ℓ} : Type ℓ → Type ℓ
Map V = List (Bytes × V)

module _ {ℓ} {V : Type ℓ} where
  -- `v, ok := m[k]`.
  unfoldable pub get : Bytes → Map V → Option V
  get k [] = none
  get k ((j, v) ∷ m) = let rest = get k m in if beq j k then some v else rest

  -- `m[k] = v`.
  unfoldable pub put : Bytes → V → Map V → Map V
  put k v [] = (k, v) ∷ []
  put k v ((j, w) ∷ m) = let rest = put k v m in if beq j k then (k, v) ∷ m else (j, w) ∷ rest

  abbrev pub cons_some : Bytes → Option V → Map V → Map V
  cons_some k none m = m
  cons_some k (some v) m = (k, v) ∷ m

  -- A `range` loop that gives each key a new value, or deletes it.
  unfoldable pub revise : (Bytes → V → Option V) → Map V → Map V
  revise f [] = []
  revise f ((k, v) ∷ m) = cons_some k (f k v) (revise f m)

  abbrev pub revised : (Bytes → V → Option V) → Bytes → Option V → Option V
  revised f k none = none
  revised f k (some v) = f k v

  -- Every key stands once.
  abbrev pub Distinct : Map V → Type ℓ
  Distinct [] = Unit
  Distinct ((k, v) ∷ m) = (get k m ≡ none) × Distinct m

  pub get-put :
      (k j : Bytes) (v : V) (m : Map V) → get j (put k v m) ≡ (if beq k j then some v else get j m)
  unfolding get put
  get-put k j v [] = refl
  get-put k j v ((i, w) ∷ m) =
      ground (arith, beq_iff k j, beq_iff i k, beq_iff i j, get-put k j v m)

  pub put-Distinct : (k : Bytes) (v : V) (m : Map V) → Distinct m → Distinct (put k v m)
  unfolding put
  put-Distinct k v [] d = (unfold get in refl, tt)
  put-Distinct k v ((i, w) ∷ m) (a, d) = elim (Bool-cases (beq i k)) [
    | inl e ↦ ground (arith, beq_iff i k)
    | inr e ↦ ground (arith, get-put k i v m, beq_iff k i, beq_iff i k, put-Distinct k v m d)
  ]

  pub get-revise-none :
      (f : Bytes → V → Option V) (k : Bytes) (m : Map V)
      → get k m ≡ none
      → get k (revise f m) ≡ none
  unfolding get revise
  get-revise-none f k [] e = refl
  get-revise-none f k ((j, v) ∷ m) e = elim (Option-cases (f j v)) [
    | inl q ↦ ground (arith, get-revise-none f k m)
    | inr (w, q) ↦ ground (arith, get-revise-none f k m)
  ]

  -- A `range` loop acts on each key alone.
  pub get-revise :
      (f : Bytes → V → Option V) (k : Bytes) (m : Map V)
      → Distinct m
      → get k (revise f m) ≡ revised f k (get k m)
  unfolding get revise
  get-revise f k [] d = refl
  get-revise f k ((j, v) ∷ m) (a, d) = elim (Bool-cases (beq j k)) [
    | inl e ↦ elim (Option-cases (f j v)) [
      | inl q ↦ ground (arith, beq_iff j k, get-revise-none f k m)
      | inr (w, q) ↦ ground (arith, beq_iff j k)
    ]
    | inr e ↦ elim (Option-cases (f j v)) [
      | inl q ↦ ground (arith, get-revise f k m d)
      | inr (w, q) ↦ ground (arith, get-revise f k m d)
    ]
  ]

  pub revise-Distinct : (f : Bytes → V → Option V) (m : Map V) → Distinct m → Distinct (revise f m)
  unfolding revise
  revise-Distinct f [] d = tt
  revise-Distinct f ((j, v) ∷ m) (a, d) = elim (Option-cases (f j v)) [
    | inl q ↦ ground (arith, revise-Distinct f m d)
    | inr (w, q) ↦ ground (arith, revise-Distinct f m d, get-revise-none f j m)
  ]

  pub length-revise : (f : Bytes → V → Option V) (m : Map V) → length (revise f m) ≤ length m
  unfolding revise
  length-revise f [] = omega arith
  length-revise f ((j, v) ∷ m) = elim (Option-cases (f j v)) [
    | inl q ↦ ground (arith, length-revise f m)
    | inr (w, q) ↦ ground (arith, length-revise f m)
  ]

  pub length-put : (k : Bytes) (v : V) (m : Map V) → length (put k v m) ≤ length m + 1
  unfolding put
  length-put k v [] = omega arith
  length-put k v ((j, w) ∷ m) = ground (arith, length-put k v m)

  -- A key that is there is overwritten in place.
  pub length-put_old :
      (k : Bytes) (v : V) (m : Map V) → get k m ≢ none → length (put k v m) ≡ length m
  unfolding get put
  length-put_old k v [] h = absurd (h refl)
  length-put_old k v ((j, w) ∷ m) h = ground (arith, length-put_old k v m)

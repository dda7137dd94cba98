-- ===== src/Limiter/Window/Refinement.antt =====
-- A sequence of `Allow` calls against the specification that counts the grants of the last window.
use mathlib.Core.Path.{subst}
use nano_ldap.Prelude.{
  ℕ, ◌+◌, ◌≤◌, ◌≡◌, refl, Bool, List, [], ◌∷◌, ◌++◌, arith, ltb, if◌then◌else◌, length, Bool-cases,
  inl, inr, sym, ◌∙◌, ap,
}
use nano_ldap.Text.{Bytes, beq}
use nano_ldap.Text.Case.{beq_iff}
use nano_ldap.Limiter.Window.{WindowLimiter, new_limiter, recent, sweep, bucket, allow_bind}
use nano_ldap.Limiter.Window.History.{
  Grants, times, granted, record_grant, Stands, sweep-Stands, Stands-later, Refines,
  allow_bucket-Refines,
}

-- One call answers as the specification does, and keeps the buckets in step with the grants.
pub allow_bind-Refines :
    (w : WindowLimiter) (h : Grants) (last now : ℕ) (k : Bytes)
    → last ≤ now
    → Stands w.window w.entries h last
    → Refines w (allow_bind w k now).0 h k now (allow_bind w k now).1
unfolding allow_bind
allow_bind-Refines w h last now k le s = elim (Bool-cases (ltb w.next_sweep now)) [
  | inl due ↦ rw due (
      let swept = record w {
        entries = sweep w.window now w.entries;
        next_sweep = now + w.window;
      } in
      let r =
        allow_bucket-Refines swept h k now (sweep-Stands w.window w.entries h last now le s) in
      record {
        same_window = r.same_window;
        same_limit = r.same_limit;
        same_answer = r.same_answer;
        stands = r.stands;
      })
  | inr early ↦
      rw early (allow_bucket-Refines w h k now (Stands-later w.window w.entries h last now le s))
]

-- The requests are made at times that do not go back.
abbrev pub Ordered : ℕ → Grants → Type 0
Ordered last [] = Unit
Ordered last ((k, now) ∷ reqs) = (last ≤ now) × Ordered now reqs

unfoldable pub run_binds : WindowLimiter → Grants → List Bool
run_binds w [] = []
run_binds w ((k, now) ∷ reqs) =
    let (v, answer) = allow_bind w k now in let rest = run_binds v reqs in answer ∷ rest

-- The answers of the specification.
unfoldable pub run_spec : ℕ → ℕ → Grants → Grants → List Bool
run_spec window limit h [] = []
run_spec window limit h ((k, now) ∷ reqs) =
    let answer = granted window limit h k now in
    let rest = run_spec window limit (record_grant answer h k now) reqs in answer ∷ rest

run_binds-eq :
    (reqs : Grants) (w : WindowLimiter) (h : Grants) (last : ℕ)
    → Ordered last reqs
    → Stands w.window w.entries h last
    → run_binds w reqs ≡ run_spec w.window w.limit h reqs
unfolding run_binds run_spec
run_binds-eq [] w h last o s = refl
run_binds-eq ((k, now) ∷ reqs) w h last (le, o) s =
    let r = allow_bind-Refines w h last now k le s in
    let v : WindowLimiter = (allow_bind w k now).0 in
    let answer : Bool = (allow_bind w k now).1 in
    let there : Stands v.window v.entries (record_grant answer h k now) now =
      rw r.same_window r.stands in
    let ih = run_binds-eq reqs v (record_grant answer h k now) now o there in
    ap (◌∷◌ answer) ih ∙ rw (r.same_window, r.same_limit, ← r.same_answer)

-- From `New` on, for requests in the order of time, the bind limiter answers as a specification
-- that keeps every grant for ever: it grants exactly the requests that find fewer than `limit`
-- grants of their key in the window.
pub run_binds-run_spec :
    (window limit : ℕ) (reqs : Grants)
    → Ordered 0 reqs
    → run_binds (new_limiter window limit) reqs ≡ run_spec window limit [] reqs
run_binds-run_spec window limit reqs o =
    run_binds-eq reqs (new_limiter window limit) [] 0 o
      (record { distinct = tt; agrees = λ k now le. unfold bucket nano_ldap.Assoc.get in refl })

-- The grants of the specification after a sequence of requests, and the time of the last request.
unfoldable pub spec_grants : ℕ → ℕ → Grants → Grants → Grants
spec_grants window limit h [] = h
spec_grants window limit h ((k, now) ∷ reqs) =
    spec_grants window limit (record_grant (granted window limit h k now) h k now) reqs

abbrev pub last_time : ℕ → Grants → ℕ
last_time last [] = last
last_time last ((k, now) ∷ reqs) = last_time now reqs

abbrev pub Bounded : ℕ → ℕ → Grants → ℕ → Type 0
Bounded window limit h last =
    (k : Bytes) (now : ℕ) → last ≤ now → length (recent window now (times k h)) ≤ limit

recent_fewer : (w a b : ℕ) (xs : List ℕ) → a ≤ b → length (recent w b xs) ≤ length (recent w a xs)
recent_fewer w a b [] le = omega arith
recent_fewer w a b (x ∷ xs) le = ground (arith, recent_fewer w a b xs)

length-grant :
    (w t now : ℕ) (j k : Bytes) (h : Grants)
    → length (recent w t (times j (h ++ (k, now) ∷ [])))
      ≤ length (recent w t (times j h)) + (if beq j k then 1 else 0)
length-grant w t now j k [] = ground (arith, beq_iff j k, beq_iff k j)
length-grant w t now j k ((i, u) ∷ h) = ground (arith, length-grant w t now j k h)

record_grant-Bounded :
    (window limit : ℕ) (h : Grants) (last now : ℕ) (k : Bytes)
    → last ≤ now
    → Bounded window limit h last
    → Bounded window limit (record_grant (granted window limit h k now) h k now) now
record_grant-Bounded window limit h last now k le b j t later =
    elim (Bool-cases (granted window limit h k now)) [
      | inr refused ↦ rw refused (b j t (omega arith))
      | inl room ↦ rw room (
          ground (
            arith,
            length-grant window t now j k h,
            beq_iff j k,
            b j t (omega arith),
            recent_fewer window now t (times j h),
          ))
    ]

spec_grants-Bounded :
    (window limit : ℕ) (reqs h : Grants) (last : ℕ)
    → Ordered last reqs
    → Bounded window limit h last
    → Bounded window limit (spec_grants window limit h reqs) (last_time last reqs)
unfolding spec_grants
spec_grants-Bounded window limit [] h last o b = b
spec_grants-Bounded window limit ((k, now) ∷ reqs) h last (le, o) b =
    spec_grants-Bounded window limit reqs _ now o
      (record_grant-Bounded window limit h last now k le b)

-- The grants that the limiter gives in a sequence of requests, after those of `h`.
unfoldable pub grants_of : WindowLimiter → Grants → Grants → Grants
grants_of w h [] = h
grants_of w h ((k, now) ∷ reqs) =
    grants_of (allow_bind w k now).0 (record_grant (allow_bind w k now).1 h k now) reqs

grants_of-eq :
    (reqs : Grants) (w : WindowLimiter) (h : Grants) (last : ℕ)
    → Ordered last reqs
    → Stands w.window w.entries h last
    → grants_of w h reqs ≡ spec_grants w.window w.limit h reqs
unfolding grants_of spec_grants
grants_of-eq [] w h last o s = refl
grants_of-eq ((k, now) ∷ reqs) w h last (le, o) s =
    let r = allow_bind-Refines w h last now k le s in
    let v : WindowLimiter = (allow_bind w k now).0 in
    let answer : Bool = (allow_bind w k now).1 in
    let there : Stands v.window v.entries (record_grant answer h k now) now =
      rw r.same_window r.stands in
    grants_of-eq reqs v (record_grant answer h k now) now o there
    ∙ rw (r.same_window, r.same_limit, ← r.same_answer)

-- From `New` on, for requests in the order of time, no key is granted more than `limit` binds in
-- any window that ends at the last request or later.
pub grants_of_bound :
    (window limit : ℕ) (reqs : Grants)
    → Ordered 0 reqs
    → Bounded window limit (grants_of (new_limiter window limit) [] reqs) (last_time 0 reqs)
grants_of_bound window limit reqs o =
    subst (λ h. Bounded window limit h (last_time 0 reqs))
      (sym (
        grants_of-eq reqs (new_limiter window limit) [] 0 o (record {
          distinct = tt;
          agrees = λ k now le. unfold bucket nano_ldap.Assoc.get in refl;
        })))
      (spec_grants-Bounded window limit reqs [] 0 o (λ k now le. omega arith))

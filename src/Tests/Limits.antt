-- ===== src/Tests/Limits.antt =====
-- The rate limits.
use nano_ldap.Prelude.{ℕ, ◌+◌, ◌≤◌, ◌≡◌, refl, true, false, List, [], ◌∷◌, arith, ◌⊎◌, length}
use nano_ldap.Text.{codes, beq}
use nano_ldap.Assoc.{get, put, revise}
use nano_ldap.Limiter.Counter.{fresh_counter, run_searches, run_searches_window}
use nano_ldap.Limiter.Window.{new_limiter, allow_bind}
use nano_ldap.Limiter.Window.History.{Grants}
use nano_ldap.Limiter.Window.Refinement.{
  Bounded, run_binds, run_spec, grants_of, last_time, run_binds-run_spec, grants_of_bound,
}

abbrev tries : Grants
tries = (codes "a", 1) ∷ (codes "a", 2) ∷ (codes "b", 3) ∷ (codes "a", 4) ∷ (codes "a", 20) ∷ []

abbrev counted : List ℕ
counted = 5 ∷ 6 ∷ 7 ∷ []

tries_run : run_binds (new_limiter 10 2) tries ≡ true ∷ true ∷ true ∷ false ∷ true ∷ []
unfolding run_binds allow_bind get put revise beq
tries_run = refl

run_binds-run_spec_example : run_binds (new_limiter 10 2) tries ≡ run_spec 10 2 [] tries
run_binds-run_spec_example = run_binds-run_spec 10 2 tries (omega arith)

grants_of_bound_example : Bounded 10 2 (grants_of (new_limiter 10 2) [] tries) (last_time 0 tries)
grants_of_bound_example = grants_of_bound 10 2 tries (omega arith)

run_searches_window_example :
    ((run_searches fresh_counter 2 counted).0.window_start ≡ 0)
    × ((run_searches fresh_counter 2 counted).0.count
        ≡ 0 + (run_searches fresh_counter 2 counted).1)
    × ((run_searches fresh_counter 2 counted).0.count ≤ 2)
    × (((run_searches fresh_counter 2 counted).1 ≡ length counted)
        ⊎ ((run_searches fresh_counter 2 counted).0.count ≡ 2))
run_searches_window_example =
    run_searches_window fresh_counter 2 counted (omega arith) (omega arith)

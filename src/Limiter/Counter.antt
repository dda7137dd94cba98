-- ===== src/Limiter/Counter.antt =====
-- `rateCounter.Allow`: at most `limit` searches are allowed in a window of a second.
use nano_ldap.Prelude.{
  ℕ, ◌+◌, ◌-◌, ◌≤◌, ◌<◌, ◌≡◌, refl, Bool, true, false, List, [], ◌∷◌, arith, leb, if◌then◌else◌,
  Bool-cases, inl, inr, ◌⊎◌, length,
}

abbrev pub second : ℕ
second = 1_000_000_000

pub record RateCounter : Type 0 where
  pub window_start : ℕ
  pub count : ℕ

-- `&connState{}` starts it from Go's zero values.
abbrev pub fresh_counter : RateCounter
fresh_counter = record { window_start = 0; count = 0 }

-- The reset at the head of `Allow`.
unfoldable pub roll : RateCounter → ℕ → RateCounter
roll r now =
    if leb second (now - r.window_start) then record { window_start = now; count = 0 } else r

unfoldable pub allow_search : RateCounter → ℕ → ℕ → RateCounter × Bool
unfolding roll
allow_search r limit now =
    let s = roll r now in
    if leb limit s.count then (s, false) else (record s { count = s.count + 1 }, true)

-- The count stays within the limit, whatever the clock shows.
pub allow_search_bound :
    (r : RateCounter) (limit now : ℕ) → r.count ≤ limit → (allow_search r limit now).0.count ≤ limit
unfolding allow_search
allow_search_bound r limit now h = ground arith

-- The answers to searches at these times, one after the other.
unfoldable pub run_searches : RateCounter → ℕ → List ℕ → RateCounter × ℕ
run_searches r limit [] = (r, 0)
run_searches r limit (now ∷ times) =
    let (s, granted) = allow_search r limit now in
    let (t, n) = run_searches s limit times in (t, if granted then n + 1 else n)

-- All of the times lie less than a second after the window's start.
abbrev pub InWindow : ℕ → List ℕ → Type 0
InWindow start [] = Unit
InWindow start (now ∷ times) = (now - start < second) × InWindow start times

roll_same : (r : RateCounter) (now : ℕ) → now - r.window_start < second → roll r now ≡ r
unfolding roll
roll_same r now h = ground arith

-- From a counter within its limit, for searches at times in its window: the window stays, the
-- counter grows by the number allowed and stays within the limit, and either all searches were
-- allowed or the limit is reached.
pub run_searches_window :
    (r : RateCounter) (limit : ℕ) (times : List ℕ)
    → r.count ≤ limit
    → InWindow r.window_start times
    → ((run_searches r limit times).0.window_start ≡ r.window_start)
      × ((run_searches r limit times).0.count ≡ r.count + (run_searches r limit times).1)
      × ((run_searches r limit times).0.count ≤ limit)
      × (((run_searches r limit times).1 ≡ length times)
          ⊎ ((run_searches r limit times).0.count ≡ limit))
unfolding run_searches allow_search
run_searches_window r limit [] h w = (refl, omega arith, h, inl refl)
run_searches_window r limit (now ∷ times) h (near, w) = elim (Bool-cases (leb limit r.count)) [
  | inl full ↦
      let ih = run_searches_window r limit times h w in ground (arith, roll_same r now near)
  | inr room ↦
      let s : RateCounter = record r { count = r.count + 1 } in
      let ih = run_searches_window s limit times (ground arith) w in
      ground (arith, roll_same r now near)
]

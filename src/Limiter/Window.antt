-- ===== src/Limiter/Window.antt =====
-- `windowLimiter` of internal/ldapserver/server.go: `Allow` and `sweepLocked`.
-- The lock makes each call one step. `entries := w.entries[key][:0]` filters a slice in place, and
-- no other slice shares its array, so a bucket is a value here.
pub mod History
pub mod Refinement
use nano_ldap.Prelude.{
  ℕ, suc, ◌+◌, ◌-◌, Bool, true, false, List, [], ◌∷◌, ◌++◌, ltb, leb, if◌then◌else◌, Option, none,
  some, keep, length,
}
use nano_ldap.Text.{Bytes}
use nano_ldap.Assoc.{Map, get, put, revise}

pub record WindowLimiter : Type 0 where
  pub window : ℕ
  pub limit : ℕ
  pub entries : Map (List ℕ)
  pub next_sweep : ℕ

-- The limiter that `New` makes.
abbrev pub new_limiter : ℕ → ℕ → WindowLimiter
new_limiter window limit = record { window = window; limit = limit; entries = []; next_sweep = 0 }

-- The loop that keeps the times within the window, which is not zero. A time after now, which Go's
-- monotonic clock does not give, is kept, as there.
abbrev pub recent : ℕ → ℕ → List ℕ → List ℕ
recent window now = keep (λ t. ltb (now - t) window)

abbrev pub unless_empty : List ℕ → Option (List ℕ)
unless_empty [] = none
unless_empty (t ∷ ts) = some (t ∷ ts)

-- The loop of `sweepLocked` over the map.
unfoldable pub sweep : ℕ → ℕ → Map (List ℕ) → Map (List ℕ)
sweep window now = revise (λ k ts. unless_empty (recent window now ts))

-- `w.entries[key]`, which is nil where the key is absent.
unfoldable pub bucket : Bytes → Map (List ℕ) → List ℕ
bucket k m = elim (get k m) [ none ↦ [] | some ts ↦ ts ]

-- The head of `Allow`: `now.After(w.nextSweep)`.
unfoldable pub sweep_if_due : WindowLimiter → ℕ → WindowLimiter
unfolding sweep
sweep_if_due w now =
    if ltb w.next_sweep now
    then record w { entries = sweep w.window now w.entries; next_sweep = now + w.window }
    else w

unfoldable pub allow_bucket : WindowLimiter → Bytes → ℕ → List ℕ → WindowLimiter × Bool
allow_bucket w key now ts =
    if leb w.limit (length ts)
    then (record w { entries = put key ts w.entries }, false)
    else (record w { entries = put key (ts ++ now ∷ []) w.entries }, true)

unfoldable pub allow_bind : WindowLimiter → Bytes → ℕ → WindowLimiter × Bool
unfolding sweep_if_due allow_bucket bucket
allow_bind w key now =
    let s = sweep_if_due w now in
    allow_bucket s key now (recent s.window now (bucket key s.entries))

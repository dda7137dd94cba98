-- ===== src/Serving/Slots.antt =====
-- The cap on connections.
use nano_ldap.Prelude.{ℕ, ◌≤◌, List, [], ◌∷◌, length, arith}
use nano_ldap.Serving.{Event, accepted, finished, accept, finish, serve_step, serve_all}

length-finish : (active : List ℕ) (conn : ℕ) → length (finish active conn) ≤ length active
unfolding finish
length-finish [] conn = omega arith
length-finish (c ∷ cs) conn = ground (arith, length-finish cs conn)

length-serve_step :
    (max : ℕ) (active : List ℕ) (e : Event)
    → length active ≤ max
    → length (serve_step max active e) ≤ max
unfolding serve_step accept
length-serve_step max active (accepted conn) h = ground arith
length-serve_step max active (finished conn) h = omega (arith, length-finish active conn)

-- From at most `max` connections, after any sequence of connections that arrive and that end, at
-- most `max` hold a token.
pub length-serve_all :
    (max : ℕ) (active : List ℕ) (es : List Event)
    → length active ≤ max
    → length (serve_all max active es) ≤ max
unfolding serve_all
length-serve_all max active [] h = h
length-serve_all max active (e ∷ es) h =
    length-serve_all max (serve_step max active e) es (length-serve_step max active e h)

-- ===== src/HttpLog.antt =====
-- The filter of the HTTP servers' error log: internal/httplog/filter.go.
-- The destination is an `io.Writer`: a state with a write that says whether it succeeded.
pub mod Stream
use nano_ldap.Prelude.{
  ℕ, zero, suc, ◌+◌, Bool, true, false, ◌&&◌, [], ◌∷◌, ◌++◌, ◌==◌, if◌then◌else◌, length, none,
  some,
}
use nano_ldap.Text.{Bytes, codes, cut, contains}

abbrev pub Destination : Type 0 → Type 0
Destination S = S → Bytes → S × Bool

-- A `filterWriter`: its destination's state and `pending`.
pub record FilterWriter (S : Type 0) : Type 0 where
  pub dst : S
  pub pending : Bytes

-- What `Write` returns: the length of its argument, or the error of the destination. `stuck` is
-- nothing that the program returns, but the model out of fuel.
pub data Written (S : Type 0) : Type 0 where
  wrote failed : FilterWriter S → Written S
  stuck : Written S

unfoldable pub should_suppress : Bytes → Bool
should_suppress line =
    contains line (codes "http: TLS handshake error")
    && contains line (codes "remote error: tls: unknown certificate")

-- `if err != nil { return 0, err }` behind the write of a line; `rest` is in `pending` by then.
abbrev pub unless_failed {ℓ} :
    {S : Type 0} {A : Type ℓ} → (S → A) → (FilterWriter S → A) → Bytes → S × Bool → A
unless_failed continue fail rest (dst, true) = continue dst
unless_failed continue fail rest (dst, false) = fail (record { dst = dst; pending = rest })

-- What becomes of a complete line: nothing is written of one that is suppressed.
unfoldable pub emit : {S : Type 0} → Destination S → S → Bytes → S × Bool
emit write_string dst line = if should_suppress line then (dst, true) else write_string dst line

-- The loop of `Write`. Each round takes a line off `pending`.
unfoldable pub drain : {S : Type 0} → Destination S → ℕ → S → Bytes → Written S
drain write_string zero dst pending = stuck
drain write_string (suc f) dst pending = elim (cut b'\n' pending) [
  | none ↦ wrote (record { dst = dst; pending = pending })
  | some (before, rest) ↦
      unless_failed (λ dst'. drain write_string f dst' rest) failed rest
        (emit write_string dst (before ++ b'\n' ∷ []))
]

unfoldable pub write : {S : Type 0} → Destination S → FilterWriter S → Bytes → Written S
unfolding drain
write write_string w p = drain write_string (length (w.pending ++ p) + 1) w.dst (w.pending ++ p)

-- ===== src/HttpLog/Stream.antt =====
-- How the input of the log filter is cut into chunks makes no difference.
use nano_ldap.Prelude.{
  ℕ, zero, suc, ◌<◌, ◌≡◌, refl, Bool, true, false, [], ◌∷◌, ◌++◌, ◌==◌, arith, length, none,
  Option-cases, Bool-cases, inl, inr, sym, ◌∙◌, ap, append-nil, append_assoc, length-append,
}
use nano_ldap.Text.{Bytes, cut}
use nano_ldap.Text.Case.{has, has-append}
use nano_ldap.Text.Split.{cut_sound}
use nano_ldap.HttpLog.{
  Destination, FilterWriter, Written, wrote, failed, unless_failed, emit, drain, write,
}

-- The reference: one byte after the other, with the line so far.
unfoldable pub feed : {S : Type 0} → Destination S → S → Bytes → Bytes → Written S
feed write_string dst line [] = wrote (record { dst = dst; pending = line })
feed write_string dst line (c ∷ s) = elim (c == b'\n') [
  | true ↦
      unless_failed (λ dst'. feed write_string dst' [] s) failed s
        (emit write_string dst (line ++ c ∷ []))
  | false ↦ feed write_string dst (line ++ c ∷ []) s
]

cut-none : (b : ℕ) (s : Bytes) → cut b s ≡ none → has b s ≡ false
unfolding cut
cut-none b [] e = refl
cut-none b (c ∷ s) e = elim (Bool-cases (c == b)) [
  | inl same ↦ ground arith
  | inr other ↦ elim (Option-cases (cut b s)) [
    | inl q ↦ ground (arith, cut-none b s)
    | inr ((x, y), q) ↦ ground arith
  ]
]

unless_failed_eq :
    {S A : Type 0} (f g : S → A) (fail : FilterWriter S → A) (rest : Bytes) (r : S × Bool)
    → ((dst : S) → f dst ≡ g dst)
    → unless_failed f fail rest r ≡ unless_failed g fail rest r
unless_failed_eq f g fail rest (dst, true) h = h dst
unless_failed_eq f g fail rest (dst, false) h = refl

writer_eq : {S : Type 0} (v w : FilterWriter S) → wrote v ≡ wrote w → v ≡ w
writer_eq v w e = cc

module _ {S : Type 0} (write_string : Destination S) where
  feed_other :
      (dst : S) (line : Bytes) (c : ℕ) (s : Bytes)
      → (c == b'\n') ≡ false
      → feed write_string dst line (c ∷ s) ≡ feed write_string dst (line ++ c ∷ []) s
  unfolding feed
  feed_other dst line c s e = rw (e, feed)

  feed_line :
      (dst : S) (line x y : Bytes)
      → has b'\n' x ≡ false
      → feed write_string dst line (x ++ y) ≡ feed write_string dst (line ++ x) y
  feed_line dst line [] y h = rw (append-nil line)
  feed_line dst line (c ∷ x) y h =
      feed_other dst line c (x ++ y) (ground arith)
      ∙ feed_line dst (line ++ c ∷ []) x y (ground arith)
      ∙ ap (λ l. feed write_string dst l y) (append_assoc line (c ∷ []) x)

  feed_newline :
      (dst : S) (line s : Bytes)
      → feed write_string dst line (b'\n' ∷ s)
        ≡ unless_failed
            (λ dst'. feed write_string dst' [] s)
            failed
            s
            (emit write_string dst (line ++ b'\n' ∷ []))
  unfolding feed
  feed_newline dst line s = refl

  drain-feed :
      (f : ℕ) (dst : S) (s : Bytes)
      → length s < f
      → drain write_string f dst s ≡ feed write_string dst [] s
  unfolding drain feed
  drain-feed zero dst s h = absurd (omega arith)
  drain-feed (suc f) dst s h = elim (Option-cases (cut b'\n' s)) [
    | inl q ↦
        rw (q, drain)
          (sym (
            ap (feed write_string dst []) (sym (append-nil s))
            ∙ feed_line dst [] s [] (cut-none b'\n' s q)
            ∙ refl))
    | inr ((x, y), q) ↦
        let (e, plain) = cut_sound b'\n' s x y q in
        rw (q, drain)
          (unless_failed_eq _ _ failed y (emit write_string dst (x ++ b'\n' ∷ [])) (λ dst'.
              drain-feed f dst' y (omega (arith, length-append {0} x (b'\n' ∷ y), ap length e)))
            ∙ sym (
                ap (feed write_string dst []) e
                ∙ feed_line dst [] x (b'\n' ∷ y) plain
                ∙ feed_newline dst x y))
  ]

  -- `Write` treats `pending` and its argument as one stream, byte by byte: it writes each complete
  -- line that is not suppressed, in order, stops at the first error, and keeps the unfinished line.
  pub write-feed :
      (w : FilterWriter S) (p : Bytes)
      → write write_string w p ≡ feed write_string w.dst [] (w.pending ++ p)
  unfolding write
  write-feed w p = drain-feed _ w.dst (w.pending ++ p) (omega arith)

  after_line :
      (x y : Bytes) (w : FilterWriter S) (r : S × Bool)
      → ((dst : S)
          → feed write_string dst [] x ≡ wrote w
          → feed write_string dst [] (x ++ y) ≡ feed write_string w.dst [] (w.pending ++ y))
      → unless_failed (λ dst. feed write_string dst [] x) failed x r ≡ wrote w
      → unless_failed (λ dst. feed write_string dst [] (x ++ y)) failed (x ++ y) r
        ≡ feed write_string w.dst [] (w.pending ++ y)
  after_line x y w (dst, true) h e = h dst e
  after_line x y w (dst, false) h e = cc

  feed-append :
      (dst : S) (line x y : Bytes) (w : FilterWriter S)
      → has b'\n' line ≡ false
      → feed write_string dst line x ≡ wrote w
      → feed write_string dst line (x ++ y) ≡ feed write_string w.dst [] (w.pending ++ y)
  unfolding feed
  feed-append dst line [] y w h e =
      sym (feed_line dst [] line y h)
      ∙ ap (λ v. feed write_string v.dst [] (v.pending ++ y))
          (writer_eq (record { dst = dst; pending = line }) w e)
  feed-append dst line (c ∷ x) y w h e = elim (Bool-cases (c == b'\n')) [
    | inl same ↦
        rw (same, feed)
          (after_line x y w (emit write_string dst (line ++ c ∷ []))
            (λ dst' e'. feed-append dst' [] x y w refl e') (rw (same, feed) at e))
    | inr other ↦
        rw (other, feed)
          (feed-append dst (line ++ c ∷ []) x y w (has-append b'\n' line (c ∷ []) h (ground arith))
            (rw (other, feed) at e))
  ]

  -- Where `Write` of one chunk succeeds, a `Write` of the next does what one `Write` of both does.
  pub write-append :
      (w : FilterWriter S) (p q : Bytes) (w' : FilterWriter S)
      → write write_string w p ≡ wrote w'
      → write write_string w (p ++ q) ≡ write write_string w' q
  write-append w p q w' e =
      write-feed w (p ++ q)
      ∙ ap (feed write_string w.dst []) (sym (append_assoc w.pending p q))
      ∙ feed-append w.dst [] (w.pending ++ p) q w' refl (sym (write-feed w p) ∙ e)
      ∙ sym (write-feed w' q)

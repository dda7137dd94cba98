-- ===== src/Ber/Integer.antt =====
-- `berInteger` and `packet.int` on 64-bit patterns.
use mathlib.Core.Path.{subst}
use nano_ldap.Prelude.{
  ℕ, suc, ◌^◌, ◌≤◌, ◌<◌, ◌≡◌, refl, [], ◌∷◌, arith, ok, length, ap, ◌==◌, ltb, sym, ◌∙◌, Bool,
  Bool-cases, inl, inr,
}
use nano_ldap.Text.{Bytes, AreBytes}
use nano_ldap.Ber.Reader.{Packets, packet, int_loop, int}
use nano_ldap.Ber.Writer.{put_big_endian, drop_zeros, pad_sign, integer_content}

-- Eight bytes read from zero give the word that they were written from.
int_loop-put_big_endian : (v : ℕ) → v < 2 ^ 64 → int_loop 0 (put_big_endian 8 v) ≡ v
unfolding int_loop put_big_endian
int_loop-put_big_endian v h = omega arith

int_loop-drop_zeros : (s : Bytes) → int_loop 0 (drop_zeros s) ≡ int_loop 0 s
unfolding drop_zeros int_loop
int_loop-drop_zeros [] = refl
int_loop-drop_zeros (b ∷ []) = refl
int_loop-drop_zeros (b ∷ c ∷ s) = elim (Bool-cases (b == 0)) [
  | inl e ↦ ground (arith, int_loop-drop_zeros (c ∷ s))
  | inr e ↦ ground arith
]

drop_zeros_cons : (b : ℕ) (s : Bytes) → (c : ℕ) × (t : Bytes) × (drop_zeros (b ∷ s) ≡ c ∷ t)
unfolding drop_zeros
drop_zeros_cons b [] = (b, [], refl)
drop_zeros_cons b (c ∷ s) = elim (Bool-cases (b == 0)) [
  | inl e ↦ rw e (drop_zeros_cons c s)
  | inr e ↦ (b, c ∷ s, rw e)
]

pad_sign_lem :
    (b : ℕ) (s : Bytes) (k t : ℕ) (c : Bool) (ps : Packets)
    → b < 2 ^ 64
    → int (packet k t c (pad_sign (b ∷ s)) ps) ≡ ok (int_loop 0 (b ∷ s))
unfolding int
pad_sign_lem b s k t c ps h = elim (Bool-cases (ltb b 128)) [
  | inl e ↦ ground arith
  | inr e ↦ ground arith
]

drop_zeros-AreBytes : (s : Bytes) → AreBytes s → AreBytes (drop_zeros s)
unfolding drop_zeros
drop_zeros-AreBytes [] h = tt
drop_zeros-AreBytes (b ∷ []) h = h
drop_zeros-AreBytes (b ∷ c ∷ s) h = ground (arith, drop_zeros-AreBytes (c ∷ s))

word-AreBytes : (v : ℕ) → AreBytes (put_big_endian 8 v)
unfolding put_big_endian
word-AreBytes v = omega arith

drop_zeros_word : (v : ℕ) → (c : ℕ) × (t : Bytes) × (drop_zeros (put_big_endian 8 v) ≡ c ∷ t)
unfolding put_big_endian
drop_zeros_word v = drop_zeros_cons _ _

-- The bytes that `drop_zeros` leaves of a word.
record Kept (v : ℕ) : Type 0 where
  first : ℕ
  others : Bytes
  is_kept : drop_zeros (put_big_endian 8 v) ≡ first ∷ others
  small : first < 256
  value : v < 2 ^ 64 → int_loop 0 (first ∷ others) ≡ v

kept : (v : ℕ) → Kept v
kept v =
    let (b, s, e) = drop_zeros_word v in
    record {
      first = b;
      others = s;
      is_kept = e;
      small = (subst AreBytes e (drop_zeros-AreBytes _ (word-AreBytes v))).0;
      value = λ h.
          ap (int_loop 0) (sym e)
          ∙ int_loop-drop_zeros (put_big_endian 8 v)
          ∙ int_loop-put_big_endian v h;
    }

-- `packet.int` reads back every 64-bit pattern that `berInteger` writes.
pub int-integer_content :
    (v k t : ℕ) (c : Bool) (ps : Packets)
    → v < 2 ^ 64
    → int (packet k t c (integer_content v) ps) ≡ ok v
unfolding integer_content
int-integer_content v k t c ps h =
    let r = kept v in
    rw r.is_kept
      (pad_sign_lem r.first r.others k t c ps (omega (arith, r.small)) ∙ ap ok (r.value h))

length-drop_zeros : (s : Bytes) → length (drop_zeros s) ≤ length s
unfolding drop_zeros
length-drop_zeros [] = omega arith
length-drop_zeros (b ∷ []) = omega arith
length-drop_zeros (b ∷ c ∷ s) = ground (arith, length-drop_zeros (c ∷ s))

length-pad_sign : (s : Bytes) → length (pad_sign s) ≤ suc (length s)
length-pad_sign [] = omega arith
length-pad_sign (b ∷ s) = ground arith

length-put_big_endian : (v : ℕ) → length (put_big_endian 8 v) ≡ 8
unfolding put_big_endian
length-put_big_endian v = refl

pub length-integer_content : (v : ℕ) → length (integer_content v) ≤ 9
unfolding integer_content
length-integer_content v = omega (
  arith,
  length-pad_sign (drop_zeros (put_big_endian 8 v)),
  length-drop_zeros (put_big_endian 8 v),
  length-put_big_endian v,
)

pad_sign_nonneg :
    (b : ℕ) (s : Bytes) → (c : ℕ) × (t : Bytes) × (pad_sign (b ∷ s) ≡ c ∷ t) × (c < 128)
pad_sign_nonneg b s = elim (Bool-cases (ltb b 128)) [
  | inl e ↦ (b, s, rw e, ground arith)
  | inr e ↦ (0, b ∷ s, rw e, omega arith)
]

-- The content that `berInteger` writes is not empty, and its sign bit is never set.
pub integer_content_nonneg :
    (v : ℕ) → (c : ℕ) × (t : Bytes) × (integer_content v ≡ c ∷ t) × (c < 128)
unfolding integer_content
integer_content_nonneg v = let r = kept v in rw r.is_kept (pad_sign_nonneg r.first r.others)

-- ===== src/Session/Hex.antt =====
-- Different random tokens make different session ids.
use nano_ldap.Prelude.{
  ℕ, ◌+◌, ◌-◌, ◌/◌, ◌%◌, ◌≡◌, refl, ◌<◌, [], ◌∷◌, arith, ltb, if◌then◌else◌, length, ◌*◌,
}
use nano_ldap.Text.{Bytes, AreBytes}
use nano_ldap.Session.{hex_encode}

digit_eq :
    (m n : ℕ)
    → m < 16
    → n < 16
    → (if ltb m 10 then b'0' + m else b'a' + m - 10)
      ≡ (if ltb n 10 then b'0' + n else b'a' + n - 10)
    → m ≡ n
digit_eq m n h k e = ground arith

pub hex_encode-injective :
    (s t : Bytes) → AreBytes s → AreBytes t → hex_encode s ≡ hex_encode t → s ≡ t
unfolding hex_encode
hex_encode-injective [] [] hs ht e = refl
hex_encode-injective [] (c ∷ t) hs ht e = cc
hex_encode-injective (b ∷ s) [] hs ht e = cc
hex_encode-injective (b ∷ s) (c ∷ t) (hb, hs) (hc, ht) e = ground (
  arith,
  digit_eq (b / 16) (c / 16) (omega arith) (omega arith),
  digit_eq (b % 16) (c % 16) (omega arith) (omega arith),
  hex_encode-injective s t hs ht,
)

-- The id has two characters for each byte of the token.
pub length-hex_encode : (s : Bytes) → length (hex_encode s) ≡ 2 * length s
unfolding hex_encode
length-hex_encode [] = omega arith
length-hex_encode (b ∷ s) = omega (arith, length-hex_encode s)

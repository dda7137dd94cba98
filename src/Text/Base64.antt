-- ===== src/Text/Base64.antt =====
-- Go's `base64.RawStdEncoding`, and that it decodes what it encodes.
use nano_ldap.Prelude.{
  ℕ, ◌+◌, ◌-◌, ◌*◌, ◌/◌, ◌%◌, ◌≡◌, refl, ◌<◌, false, ◌&&◌, ◌||◌, List, [], ◌∷◌, arith, ltb, leb,
  ◌==◌, if◌then◌else◌, Option, none, some, ap, ◌∙◌,
}
use nano_ldap.Text.{Bytes, AreBytes}
use nano_ldap.Text.Case.{has}

abbrev pub char_of : ℕ → ℕ
char_of v =
    if ltb v 26
    then v + b'A'
    else if ltb v 52
    then v - 26 + b'a'
    else if ltb v 62
    then v - 52 + b'0'
    else if v == 62
    then b'+'
    else b'/'

abbrev pub value_of : ℕ → Option ℕ
value_of c =
    if leb b'A' c && leb c b'Z'
    then some (c - b'A')
    else if leb b'a' c && leb c b'z'
    then some (c - b'a' + 26)
    else if leb b'0' c && leb c b'9'
    then some (c - b'0' + 52)
    else if c == b'+'
    then some 62
    else if c == b'/'
    then some 63
    else none

unfoldable pub encode : Bytes → Bytes
encode [] = []
encode (a ∷ []) = char_of (a / 4) ∷ char_of (a % 4 * 16) ∷ []
encode (a ∷ b ∷ []) = char_of (a / 4) ∷ char_of (a % 4 * 16 + b / 16) ∷ char_of (b % 16 * 4) ∷ []
encode (a ∷ b ∷ c ∷ s) =
    char_of (a / 4)
    ∷ char_of (a % 4 * 16 + b / 16)
    ∷ char_of (b % 16 * 4 + c / 64)
    ∷ char_of (c % 64)
    ∷ encode s

abbrev pub cons_value : Option ℕ → Option (List ℕ) → Option (List ℕ)
cons_value none vs = none
cons_value (some v) none = none
cons_value (some v) (some vs) = some (v ∷ vs)

-- The values of the characters; the decoder skips line ends.
unfoldable pub values : Bytes → Option (List ℕ)
values [] = some []
values (c ∷ s) =
    let rest = values s in if c == b'\n' || c == b'\r' then rest else cons_value (value_of c) rest

abbrev pub cons_three : ℕ → ℕ → ℕ → Option Bytes → Option Bytes
cons_three a b c none = none
cons_three a b c (some s) = some (a ∷ b ∷ c ∷ s)

-- The bytes of groups of four values; the last group may have two or three.
unfoldable pub bytes_of : List ℕ → Option Bytes
bytes_of [] = some []
bytes_of (a ∷ []) = none
bytes_of (a ∷ b ∷ []) = some ((a * 4 + b / 16) ∷ [])
bytes_of (a ∷ b ∷ c ∷ []) = some ((a * 4 + b / 16) ∷ (b % 16 * 16 + c / 4) ∷ [])
bytes_of (a ∷ b ∷ c ∷ d ∷ vs) =
    cons_three (a * 4 + b / 16) (b % 16 * 16 + c / 4) (c % 4 * 64 + d) (bytes_of vs)

abbrev pub of_values : Option (List ℕ) → Option Bytes
of_values none = none
of_values (some vs) = bytes_of vs

unfoldable pub decode : Bytes → Option Bytes
unfolding values bytes_of
decode s = of_values (values s)

-- The values that `encode` writes.
abbrev sextets : Bytes → List ℕ
sextets [] = []
sextets (a ∷ []) = a / 4 ∷ a % 4 * 16 ∷ []
sextets (a ∷ b ∷ []) = a / 4 ∷ (a % 4 * 16 + b / 16) ∷ b % 16 * 4 ∷ []
sextets (a ∷ b ∷ c ∷ s) = a / 4 ∷ (a % 4 * 16 + b / 16) ∷ (b % 16 * 4 + c / 64) ∷ c % 64 ∷ sextets s

value-char : (v : ℕ) → v < 64 → value_of (char_of v) ≡ some v
value-char v h = ground arith

char-plain : (v : ℕ) → v < 64 → (char_of v == b'\n' || char_of v == b'\r') ≡ false
char-plain v h = ground arith

values-char :
    (v : ℕ) (s : Bytes) (vs : List ℕ)
    → v < 64
    → values s ≡ some vs
    → values (char_of v ∷ s) ≡ some (v ∷ vs)
unfolding values
values-char v s vs h e = rw (char-plain v h, value-char v h, e)

values-nil : values [] ≡ some []
unfolding values
values-nil = refl

values-encode : (s : Bytes) → AreBytes s → values (encode s) ≡ some (sextets s)
unfolding encode
values-encode [] h = values-nil
values-encode (a ∷ []) (x, h) =
    values-char (a / 4) _ _ (omega arith) (values-char (a % 4 * 16) _ _ (omega arith) values-nil)
values-encode (a ∷ b ∷ []) (x, (y, h)) = values-char (a / 4) _ _ (omega arith) (
    values-char (a % 4 * 16 + b / 16) _ _ (omega arith)
      (values-char (b % 16 * 4) _ _ (omega arith) values-nil))
values-encode (a ∷ b ∷ c ∷ s) (x, (y, (z, h))) = values-char (a / 4) _ _ (omega arith) (
    values-char (a % 4 * 16 + b / 16) _ _ (omega arith) (
      values-char (b % 16 * 4 + c / 64) _ _ (omega arith)
        (values-char (c % 64) _ _ (omega arith) (values-encode s h))))

bytes_of-sextets : (s : Bytes) → AreBytes s → bytes_of (sextets s) ≡ some s
unfolding bytes_of
bytes_of-sextets [] h = refl
bytes_of-sextets (a ∷ []) h = ground arith
bytes_of-sextets (a ∷ b ∷ []) h = ground arith
bytes_of-sextets (a ∷ b ∷ c ∷ s) h = ground (arith, bytes_of-sextets s)

pub decode-encode : (s : Bytes) → AreBytes s → decode (encode s) ≡ some s
unfolding decode
decode-encode s h = ap of_values (values-encode s h) ∙ bytes_of-sextets s h

has-char : (v : ℕ) (s : Bytes) → v < 64 → has b'$' s ≡ false → has b'$' (char_of v ∷ s) ≡ false
has-char v s h e = ap (λ b. b || has b'$' s) (no_dollar v h) ∙ e
  where
    no_dollar : (v : ℕ) → v < 64 → (char_of v == b'$') ≡ false
    no_dollar v h = ground arith

-- A text of base 64 has no dollar sign.
pub encode-plain : (s : Bytes) → AreBytes s → has b'$' (encode s) ≡ false
unfolding encode
encode-plain [] h = refl
encode-plain (a ∷ []) (x, h) =
    has-char (a / 4) (char_of (a % 4 * 16) ∷ []) (omega arith)
      (has-char (a % 4 * 16) [] (omega arith) refl)
encode-plain (a ∷ b ∷ []) (x, (y, h)) =
    has-char (a / 4) (char_of (a % 4 * 16 + b / 16) ∷ char_of (b % 16 * 4) ∷ []) (omega arith) (
      has-char (a % 4 * 16 + b / 16) (char_of (b % 16 * 4) ∷ []) (omega arith)
        (has-char (b % 16 * 4) [] (omega arith) refl))
encode-plain (a ∷ b ∷ c ∷ s) (x, (y, (z, h))) =
    let third : Bytes = char_of (b % 16 * 4 + c / 64) ∷ char_of (c % 64) ∷ encode s in
    has-char (a / 4) (char_of (a % 4 * 16 + b / 16) ∷ third) (omega arith) (
      has-char (a % 4 * 16 + b / 16) third (omega arith) (
        has-char (b % 16 * 4 + c / 64) (char_of (c % 64) ∷ encode s) (omega arith)
          (has-char (c % 64) (encode s) (omega arith) (encode-plain s h))))

-- ===== src/Text/Decimal.antt =====
-- Go's decimal numbers: `strconv.Atoi` and the verb `%d`. A Go int is its 64-bit pattern.
use nano_ldap.Prelude.{
  ℕ, zero, suc, ◌+◌, ◌-◌, ◌*◌, ◌/◌, ◌%◌, ◌^◌, Bool, true, false, ◌&&◌, [], ◌∷◌, ltb, leb, ◌==◌,
  if◌then◌else◌, Option, none, some,
}
use nano_ldap.Text.{Bytes}

abbrev pub is_digit : ℕ → Bool
is_digit c = leb b'0' c && leb c b'9'

-- The number that digits write; `none` at any other byte.
unfoldable pub magnitude : ℕ → Bytes → Option ℕ
magnitude acc [] = some acc
magnitude acc (c ∷ s) =
    let rest = magnitude (acc * 10 + (c - b'0')) s in if is_digit c then rest else none

-- A magnitude in range, with its sign.
abbrev pub signed : Bool → Option ℕ → Option ℕ
signed negative none = none
signed false (some n) = if ltb n (2 ^ 63) then some n else none
signed true (some n) = if leb n (2 ^ 63) then some ((2 ^ 64 - n) % 2 ^ 64) else none

unfoldable pub unsigned_digits : Bool → Bytes → Option ℕ
unfolding magnitude
unsigned_digits negative [] = none
unsigned_digits negative (c ∷ s) = signed negative (magnitude 0 (c ∷ s))

-- `strconv.Atoi`; `none` is an error, of syntax or of range.
unfoldable pub atoi : Bytes → Option ℕ
unfolding unsigned_digits
atoi [] = none
atoi (c ∷ s) =
    if c == b'-'
    then unsigned_digits true s
    else if c == b'+'
    then unsigned_digits false s
    else unsigned_digits false (c ∷ s)

-- The digits of a number, before those that are there. The fuel is the number of digits at most.
unfoldable pub digits : ℕ → ℕ → Bytes → Bytes
digits zero n acc = acc
digits (suc f) n acc =
    let rest = digits f (n / 10) ((n % 10 + b'0') ∷ acc) in
    if ltb n 10 then (n + b'0') ∷ acc else rest

-- A number below 10 ^ 20, as every 64-bit pattern is.
unfoldable pub decimal : ℕ → Bytes
unfolding digits
decimal n = digits 20 n []

-- `%d` of a Go int.
unfoldable pub format_int : ℕ → Bytes
unfolding decimal
format_int v = if ltb v (2 ^ 63) then decimal v else b'-' ∷ decimal (2 ^ 64 - v)

-- ===== src/Text.antt =====
-- Go strings as byte lists, and the functions of package `strings` that the program calls.
-- Case folding and white space are those of ASCII.
pub mod Case
pub mod Split
pub mod Suffix
pub mod Decimal
pub mod Base64
use Prim.Native.Char.{code}
use Prim.Native.String.{String}
use nano_ldap.Prelude.{
  ℕ, ◌+◌, ◌<◌, Bool, true, false, ◌&&◌, ◌||◌, Option, none, some, List, [], ◌∷◌, ◌++◌, ◌==◌, leb,
  if◌then◌else◌,
}

abbrev pub Bytes : Type 0
Bytes = List ℕ

-- The bytes of an ASCII literal.
abbrev pub codes : String → Bytes
codes String.[] = []
codes (String.◌∷◌ c s) = code c ∷ codes s

-- The elements of a byte string are below 256.
abbrev pub AreBytes : Bytes → Type 0
AreBytes [] = Unit
AreBytes (b ∷ s) = (b < 256) × AreBytes s

-- `a == b` on strings.
unfoldable pub beq : Bytes → Bytes → Bool
beq [] [] = true
beq (x ∷ xs) (y ∷ ys) = x == y && beq xs ys
beq _ _ = false

abbrev pub is_empty : Bytes → Bool
is_empty [] = true
is_empty (c ∷ s) = false

unfoldable pub lower : ℕ → ℕ
lower c = if leb b'A' c && leb c b'Z' then c + 32 else c

-- `strings.ToLower`.
unfoldable pub to_lower : Bytes → Bytes
to_lower [] = []
to_lower (c ∷ s) = lower c ∷ to_lower s

-- `strings.EqualFold`.
unfoldable pub equal_fold : Bytes → Bytes → Bool
equal_fold s t = beq (to_lower s) (to_lower t)

unfoldable pub is_space : ℕ → Bool
is_space c = c == 32 || (leb 9 c && leb c 13)

unfoldable pub trim_left : Bytes → Bytes
trim_left [] = []
trim_left (c ∷ s) = let rest = trim_left s in if is_space c then rest else c ∷ s

unfoldable pub trim_right : Bytes → Bytes
trim_right [] = []
trim_right (c ∷ s) = let rest = trim_right s in if is_empty rest && is_space c then [] else c ∷ rest

-- `strings.TrimSpace`.
unfoldable pub trim_space : Bytes → Bytes
trim_space s = trim_right (trim_left s)

abbrev pub cons_head : ℕ → List Bytes → List Bytes
cons_head c [] = (c ∷ []) ∷ []
cons_head c (x ∷ xs) = (c ∷ x) ∷ xs

-- `strings.Split` at a separator of one byte.
unfoldable pub split : ℕ → Bytes → List Bytes
split b [] = [] ∷ []
split b (c ∷ s) = let rest = split b s in if c == b then [] ∷ rest else cons_head c rest

-- `strings.Join` with a separator of one byte.
unfoldable pub join : ℕ → List Bytes → Bytes
join b [] = []
join b (x ∷ []) = x
join b (x ∷ y ∷ xs) = x ++ (b ∷ join b (y ∷ xs))

abbrev pub push_before : ℕ → Option (Bytes × Bytes) → Option (Bytes × Bytes)
push_before c none = none
push_before c (some (before, after)) = some (c ∷ before, after)

-- `strings.Cut`, and `strings.SplitN(s, sep, 2)`: `none` where the byte does not occur.
unfoldable pub cut : ℕ → Bytes → Option (Bytes × Bytes)
cut b [] = none
cut b (c ∷ s) = let rest = cut b s in if c == b then some ([], s) else push_before c rest

abbrev pub push_front : ℕ → Option Bytes → Option Bytes
push_front c none = none
push_front c (some s) = some (c ∷ s)

-- What stands before a suffix: `strings.HasSuffix` where there is one, `strings.TrimSuffix` its value.
unfoldable pub strip_suffix : Bytes → Bytes → Option Bytes
strip_suffix [] t = if beq [] t then some [] else none
strip_suffix (c ∷ s) t =
    let rest = strip_suffix s t in if beq (c ∷ s) t then some [] else push_front c rest

-- What stands behind a prefix.
unfoldable pub strip_prefix : Bytes → Bytes → Option Bytes
strip_prefix s [] = some s
strip_prefix [] (d ∷ t) = none
strip_prefix (c ∷ s) (d ∷ t) = let rest = strip_prefix s t in if c == d then rest else none

-- `strings.Replace(s, old, new, 1)` for an `old` that is not empty.
unfoldable pub replace_first : Bytes → Bytes → Bytes → Bytes
replace_first [] old new = []
replace_first (c ∷ s) old new =
    let later = replace_first s old new in
    elim (strip_prefix (c ∷ s) old) [ some rest ↦ new ++ rest | none ↦ c ∷ later ]

-- `strings.Contains`.
unfoldable pub contains : Bytes → Bytes → Bool
contains [] t = elim (strip_prefix [] t) [ some _ ↦ true | none ↦ false ]
contains (c ∷ s) t =
    let later = contains s t in elim (strip_prefix (c ∷ s) t) [ some _ ↦ true | none ↦ later ]

-- ===== src/Password.antt =====
-- Password hashes: internal/auth/password.go. `key` is `argon2.IDKey`, of a password, a salt, the
-- time, the memory, the threads and the length of the key.
pub mod RoundTrip
pub mod Shape
use nano_ldap.Prelude.{
  ℕ, ◌+◌, ◌%◌, ◌^◌, Bool, true, false, List, [], ◌∷◌, ◌++◌, length, ◌==◌, if◌then◌else◌, Option,
  none, some, Result, ok, err, ◌>>=◌,
}
use nano_ldap.Text.{Bytes, codes, beq, split, cut, strip_prefix}
use nano_ldap.Text.Decimal.{atoi, decimal}
use nano_ldap.Text.Base64.{encode, decode}

abbrev pub Key : Type 0
Key = Bytes → Bytes → ℕ → ℕ → ℕ → ℕ → Bytes

abbrev pub argon_variant : Bytes
argon_variant = codes "argon2id"

abbrev pub argon_version : ℕ
argon_version = 19

abbrev pub argon_memory : ℕ
argon_memory = 65536

abbrev pub argon_time : ℕ
argon_time = 1

abbrev pub argon_threads : ℕ
argon_threads = 4

abbrev pub argon_key_len : ℕ
argon_key_len = 32

-- The format string of `HashPassword` at its arguments.
unfoldable pub format_phc : Bytes → Bytes → Bytes
unfolding decimal
format_phc salt hash =
    codes "$"
    ++ (argon_variant
        ++ (codes "$v="
            ++ (decimal argon_version
                ++ (codes "$m="
                    ++ (decimal argon_memory
                        ++ (codes ",t="
                            ++ (decimal argon_time
                                ++ (codes ",p="
                                    ++ (decimal argon_threads
                                        ++ (codes "$"
                                            ++ (encode salt ++ (codes "$" ++ encode hash))))))))))))

-- `HashPassword`; the salt is `none` where `rand.Read` fails.
unfoldable pub hash_password : Key → Option Bytes → Bytes → Option Bytes
unfolding format_phc
hash_password key none password = none
hash_password key (some salt) password =
    some (format_phc salt (key password salt argon_time argon_memory argon_threads argon_key_len))

-- `phcParams`: two of 32 bits and one of 8.
pub record PhcParams : Type 0 where
  pub memory : ℕ
  pub time : ℕ
  pub threads : ℕ

pub data PhcError : Type 0 where
  invalid_phc unsupported_version invalid_parameter not_a_number unknown_parameter : PhcError
  bad_base64 : PhcError

abbrev pub Parsed : Type 0 → Type 0
Parsed A = Result PhcError A

abbrev pub or_bad : {A : Type 0} → PhcError → Option A → Parsed A
or_bad e none = err e
or_bad e (some a) = ok a

-- `strings.TrimPrefix`.
abbrev pub trim_prefix : Bytes → Bytes → Bytes
trim_prefix s prefix = elim (strip_prefix s prefix) [ none ↦ s | some rest ↦ rest ]

-- The switch of `parsePHC`; a conversion to an unsigned type keeps the low bits.
unfoldable pub set_param : PhcParams → Bytes → ℕ → Parsed PhcParams
set_param params name value =
    if beq name (codes "m")
    then ok (record params { memory = value % 2 ^ 32 })
    else if beq name (codes "t")
    then ok (record params { time = value % 2 ^ 32 })
    else if beq name (codes "p")
    then ok (record params { threads = value % 2 ^ 8 })
    else err unknown_parameter

-- The loop over the parameters.
unfoldable pub parse_params : PhcParams → List Bytes → Parsed PhcParams
unfolding set_param
parse_params params [] = ok params
parse_params params (piece ∷ pieces) = do
  (name, text) ← or_bad invalid_parameter (cut b'=' piece)
  value ← or_bad not_a_number (atoi text)
  params' ← set_param params name value
  parse_params params' pieces

abbrev pub no_params : PhcParams
no_params = record { memory = 0; time = 0; threads = 0 }

unfoldable pub is_version : Option ℕ → Bool
is_version none = false
is_version (some v) = v == argon_version

-- `parsePHC` behind `strings.Split`.
unfoldable pub parse_parts : List Bytes → Parsed (PhcParams × Bytes × Bytes)
unfolding parse_params is_version decode atoi
parse_parts (start ∷ variant ∷ version ∷ params ∷ salt ∷ hash ∷ []) =
    if beq variant argon_variant
    then (if is_version (atoi (trim_prefix version (codes "v=")))
        then (do
          ps ← parse_params no_params (split b',' params)
          s ← or_bad bad_base64 (decode salt)
          h ← or_bad bad_base64 (decode hash)
          ok (ps, s, h))
        else err unsupported_version)
    else err invalid_phc
parse_parts _ = err invalid_phc

unfoldable pub parse_phc : Bytes → Parsed (PhcParams × Bytes × Bytes)
parse_phc phc = parse_parts (split b'$' phc)

-- `VerifyPassword`. `subtle.ConstantTimeCompare` is 1 for equal slices.
unfoldable pub verify_password : Key → Bytes → Bytes → Parsed Bool
verify_password key phc password = do
  (params, salt, expected) ← parse_phc phc
  ok (
      beq (key password salt params.time params.memory params.threads (length expected % 2 ^ 32))
        expected)

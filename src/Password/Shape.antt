-- ===== src/Password/Shape.antt =====
-- What `parsePHC` accepts, and the hashes that another version or variant wrote.
use mathlib.Core.Path.{subst}
use nano_ldap.Prelude.{
  IfOk, ℕ, ◌≡◌, true, List, [], ◌∷◌, arith, Option, none, some, ok, err, Option-cases, Result-cases,
  ◌>>=◌, Bool-cases, inl, inr, ◌<◌, ◌^◌,
}
use nano_ldap.Text.{cut, Bytes, codes, beq, split}
use nano_ldap.Text.Decimal.{atoi}
use nano_ldap.Text.Base64.{decode}
use nano_ldap.Password.{
  or_bad, bad_base64, argon_version, set_param, parse_params, no_params, Parsed, PhcParams,
  argon_variant, is_version, parse_parts, parse_phc, trim_prefix,
}

-- Six pieces, the second the variant and the third the version.
abbrev pub IsPhc : List Bytes → Type 0
IsPhc (start ∷ variant ∷ version ∷ params ∷ salt ∷ hash ∷ []) =
    (beq variant argon_variant ≡ true)
    × (atoi (trim_prefix version (codes "v=")) ≡ some argon_version)
IsPhc _ = ⊥

-- The fields of `phcParams` fit their types.
abbrev pub InRange : PhcParams → Type 0
InRange ps = (ps.memory < 2 ^ 32) × (ps.time < 2 ^ 32) × (ps.threads < 2 ^ 8)

set_param-InRange :
    (ps : PhcParams) (name : Bytes) (value : ℕ)
    → InRange ps
    → IfOk InRange (set_param ps name value)
unfolding set_param
set_param-InRange ps name value h = ground arith

parse_params-InRange :
    (ps : PhcParams) (pieces : List Bytes) → InRange ps → IfOk InRange (parse_params ps pieces)
unfolding parse_params
parse_params-InRange ps [] h = h
parse_params-InRange ps (piece ∷ pieces) h = elim (Option-cases (cut b'=' piece)) [
  | inl e ↦ rw e tt
  | inr ((name, text), e) ↦ elim (Option-cases (atoi text)) [
    | inl e' ↦ rw (e, e') tt
    | inr (value, e') ↦ elim (Result-cases (set_param ps name value)) [
      | inr (x, e'') ↦ rw (e, e', e'') tt
      | inl (ps', e'') ↦
          rw (e, e', e'')
            (parse_params-InRange ps' pieces
              (subst (IfOk InRange) e'' (set_param-InRange ps name value h)))
    ]
  ]
]

is_version_eq : (o : Option ℕ) → is_version o ≡ true → o ≡ some argon_version
unfolding is_version
is_version_eq none h = ground arith
is_version_eq (some v) h = ground arith

-- What a hash that is read must be.
abbrev pub Shape : List Bytes → PhcParams × Bytes × Bytes → Type 0
Shape parts (ps, salt, hash) = IsPhc parts × InRange ps

-- The two strings of base 64, behind the parameters.
read_bytes :
    (parts : List Bytes) (r : Parsed PhcParams) (salt hash : Bytes)
    → IsPhc parts
    → IfOk InRange r
    → IfOk (Shape parts) (do
      ps ← r
      s ← or_bad bad_base64 (decode salt)
      h ← or_bad bad_base64 (decode hash)
      ok (ps, s, h))
read_bytes parts (err e) salt hash h p = tt
read_bytes parts (ok ps) salt hash h p = elim (Option-cases (decode salt)) [
  | inl e ↦ rw e tt
  | inr (s, e) ↦ elim (Option-cases (decode hash)) [
    | inl e' ↦ rw (e, e') tt
    | inr (b, e') ↦ rw (e, e') (h, p)
  ]
]

parse_parts-Shape : (parts : List Bytes) → IfOk (Shape parts) (parse_parts parts)
unfolding parse_parts
parse_parts-Shape [] = tt
parse_parts-Shape (a ∷ []) = tt
parse_parts-Shape (a ∷ b ∷ []) = tt
parse_parts-Shape (a ∷ b ∷ c ∷ []) = tt
parse_parts-Shape (a ∷ b ∷ c ∷ d ∷ []) = tt
parse_parts-Shape (a ∷ b ∷ c ∷ d ∷ e ∷ []) = tt
parse_parts-Shape (a ∷ b ∷ c ∷ d ∷ s ∷ h ∷ []) = elim (Bool-cases (beq b argon_variant)) [
  | inr e ↦ rw e tt
  | inl e ↦ elim (Bool-cases (is_version (atoi (trim_prefix c (codes "v="))))) [
    | inr e' ↦ rw (e, e') tt
    | inl e' ↦
        rw (e, e')
          (read_bytes (a ∷ b ∷ c ∷ d ∷ s ∷ h ∷ []) (parse_params no_params (split b',' d)) s h
            (e, is_version_eq (atoi (trim_prefix c (codes "v="))) e')
            (parse_params-InRange no_params (split b',' d) (omega arith, omega arith, omega arith)))
  ]
]
parse_parts-Shape (a ∷ b ∷ c ∷ d ∷ e ∷ s ∷ h ∷ rest) = tt

-- What `parsePHC` accepts has six pieces, of which the second is `argon2id` and the third a version
-- of 19, and the parameters that it returns fit 32, 32 and 8 bits.
pub parse_phc-Shape :
    (phc : Bytes) (ps : PhcParams) (salt hash : Bytes)
    → parse_phc phc ≡ ok (ps, salt, hash)
    → IsPhc (split b'$' phc) × InRange ps
unfolding parse_phc
parse_phc-Shape phc ps salt hash e =
    subst (IfOk (Shape (split b'$' phc))) e (parse_parts-Shape (split b'$' phc))

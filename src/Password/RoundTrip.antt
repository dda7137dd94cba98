-- ===== src/Password/RoundTrip.antt =====
-- What `HashPassword` writes, `VerifyPassword` reads.
use nano_ldap.Prelude.{◌≡◌, refl, List, [], ◌∷◌, length, none, some, ok, ◌∙◌, sym, ap}
use nano_ldap.Text.{Bytes, AreBytes, codes, beq, split, join, cut, strip_prefix}
use nano_ldap.Text.Split.{split-join}
use nano_ldap.Text.Decimal.{atoi}
use nano_ldap.Text.Base64.{encode, decode-encode, encode-plain}
use nano_ldap.Password.{
  Key, PhcParams, argon_variant, argon_memory, argon_time, argon_threads, argon_key_len, format_phc,
  hash_password, parse_params, no_params, is_version, parse_parts, parse_phc, verify_password,
}

abbrev phc_parts : Bytes → Bytes → List Bytes
phc_parts salt hash =
    [] ∷ argon_variant ∷ codes "v=19" ∷ codes "m=65536,t=1,p=4" ∷ encode salt ∷ encode hash ∷ []

format_phc-join : (salt hash : Bytes) → format_phc salt hash ≡ join b'$' (phc_parts salt hash)
unfolding format_phc join
format_phc-join salt hash = refl

abbrev written : PhcParams
written = record { memory = argon_memory; time = argon_time; threads = argon_threads }

parsed_params : parse_params no_params (split b',' (codes "m=65536,t=1,p=4")) ≡ ok written
unfolding parse_params split cut atoi beq
parsed_params = refl

parse_parts-phc :
    (salt hash : Bytes)
    → AreBytes salt
    → AreBytes hash
    → parse_parts (phc_parts salt hash) ≡ ok (written, salt, hash)
unfolding parse_parts is_version strip_prefix atoi beq
parse_parts-phc salt hash a b = rw (parsed_params, decode-encode salt a, decode-encode hash b)

parse_phc-format_phc :
    (salt hash : Bytes)
    → AreBytes salt
    → AreBytes hash
    → parse_phc (format_phc salt hash) ≡ ok (written, salt, hash)
unfolding parse_phc
parse_phc-format_phc salt hash a b =
    ap (λ s. parse_parts (split b'$' s)) (format_phc-join salt hash)
    ∙ ap parse_parts (
        split-join b'$' []
          (argon_variant ∷ codes "v=19" ∷ codes "m=65536,t=1,p=4" ∷ encode salt ∷ encode hash ∷ [])
          (refl, (refl, (refl, (refl, (encode-plain salt a, (encode-plain hash b, tt)))))))
    ∙ parse_parts-phc salt hash a b

-- The key that `HashPassword` derives.
abbrev pub derived : Key → Bytes → Bytes → Bytes
derived key salt password = key password salt argon_time argon_memory argon_threads argon_key_len

hash_password-format_phc :
    (key : Key) (salt password : Bytes)
    → hash_password key (some salt) password ≡ some (format_phc salt (derived key salt password))
unfolding hash_password
hash_password-format_phc key salt password = refl

verify_password-format_phc :
    (key : Key) (salt hash attempt : Bytes)
    → AreBytes salt
    → AreBytes hash
    → length hash ≡ argon_key_len
    → verify_password key (format_phc salt hash) attempt ≡ ok (beq (derived key salt attempt) hash)
unfolding verify_password
verify_password-format_phc key salt hash attempt a b n = rw (parse_phc-format_phc salt hash a b, n)

-- Of a hash that `HashPassword` makes, with a key function that gives 32 bytes, `VerifyPassword`
-- reads the salt and the key back: it compares the key of the attempt, under the same salt and
-- parameters, with the key of the password, and it does not fail.
pub verify_password-hash_password :
    (key : Key) (salt password attempt phc : Bytes)
    → AreBytes salt
    → AreBytes (derived key salt password)
    → length (derived key salt password) ≡ argon_key_len
    → hash_password key (some salt) password ≡ some phc
    → verify_password key phc attempt
      ≡ ok (beq (derived key salt attempt) (derived key salt password))
verify_password-hash_password key salt password attempt phc a b n e =
    let phc_is : format_phc salt (derived key salt password) ≡ phc =
      ap (λ o. elim o [ none ↦ [] | some s ↦ s ])
        (sym (hash_password-format_phc key salt password) ∙ e) in
    ap (λ s. verify_password key s attempt) (sym phc_is)
    ∙ verify_password-format_phc key salt (derived key salt password) attempt a b n

-- ===== src/Directory.antt =====
-- The base DN: internal/directory/settings.go. The lock of `Settings` guards one field, so its
-- methods are functions of that field.
pub mod Components
pub mod Normal
use nano_ldap.Prelude.{
  Bool, List, [], ◌∷◌, ◌++◌, if◌then◌else◌, Result, ok, err, ◌>>=◌, Option, none, some,
}
use nano_ldap.Text.{Bytes, codes, is_empty, equal_fold, trim_space, split, join, cut}

-- The three errors of `NormalizeBaseDN`.
pub data BaseDnError : Type 0 where
  required not_domain empty_component : BaseDnError

-- The body of the loop of `NormalizeBaseDN`, behind `strings.Cut`.
unfoldable pub normalize_pair : Bytes → Bytes → Result BaseDnError Bytes
normalize_pair attr value =
    if equal_fold (trim_space attr) (codes "dc")
    then (if is_empty (trim_space value)
        then err empty_component
        else ok (codes "dc=" ++ trim_space value))
    else err not_domain

unfoldable pub normalize_part : Bytes → Result BaseDnError Bytes
unfolding normalize_pair
normalize_part part = elim (cut b'=' (trim_space part)) [
  | none ↦ err not_domain
  | some (attr, value) ↦ normalize_pair attr value
]

unfoldable pub normalize_parts : List Bytes → Result BaseDnError (List Bytes)
normalize_parts [] = ok []
normalize_parts (part ∷ parts) = do x ← normalize_part part; xs ← normalize_parts parts; ok (x ∷ xs)

-- `NormalizeBaseDN` behind `strings.Split`.
unfoldable pub normalize_pieces : List Bytes → Result BaseDnError Bytes
normalize_pieces [] = err required
normalize_pieces (part ∷ parts) = do xs ← normalize_parts (part ∷ parts); ok (join b',' xs)

unfoldable pub normalize_base_dn : Bytes → Result BaseDnError Bytes
unfolding normalize_pieces normalize_parts
normalize_base_dn input = normalize_pieces (split b',' input)

pub record Settings : Type 0 where
  pub base_dn : Bytes

unfoldable pub new_settings : Bytes → Result BaseDnError Settings
unfolding normalize_base_dn
new_settings s = do n ← normalize_base_dn s; ok (record { base_dn = n })

-- `SetBaseDN`: the new settings, and its error.
unfoldable pub set_base_dn : Settings → Bytes → Settings × Result BaseDnError (Unit {0})
unfolding normalize_base_dn
set_base_dn st s = elim (normalize_base_dn s) [
  | ok n ↦ (record st { base_dn = n }, ok tt)
  | err e ↦ (st, err e)
]

-- ===== src/Accounts.antt =====
-- The forms of internal/store/store.go, and the names that it makes of them: `uniqueNames` and
-- `displayOrUsername`.
pub mod Names
use nano_ldap.Prelude.{Bool, true, false, List, [], ◌∷◌, any, if◌then◌else◌}
use nano_ldap.Text.{Bytes, beq, is_empty, to_lower, trim_space}

-- `store.UserInput` and `store.GroupInput`.
pub record UserInput : Type 0 where
  pub username : Bytes
  pub password : Bytes
  pub display_name : Bytes
  pub disabled : Bool
  pub group_names : List Bytes

pub record GroupInput : Type 0 where
  pub name : Bytes
  pub description : Bytes

-- Whether the Go set `seen`, as the list of its keys, has a key.
abbrev pub was_seen : List Bytes → Bytes → Bool
was_seen seen key = any (λ k. beq k key) seen

-- What the loop of `uniqueNames` does with a trimmed name; the rest of the loop is an argument.
abbrev pub add_name : List Bytes → Bytes → (List Bytes → List Bytes) → List Bytes
add_name seen trimmed rest = elim (is_empty trimmed) [
  | true ↦ rest seen
  | false ↦ elim (was_seen seen (to_lower trimmed)) [
    | true ↦ rest seen
    | false ↦ trimmed ∷ rest (to_lower trimmed ∷ seen)
  ]
]

-- The loop of `uniqueNames`.
unfoldable pub unique_from : List Bytes → List Bytes → List Bytes
unique_from seen [] = []
unique_from seen (name ∷ names) = add_name seen (trim_space name) (λ seen'. unique_from seen' names)

unfoldable pub unique_names : List Bytes → List Bytes
unfolding unique_from
unique_names names = unique_from [] names

unfoldable pub display_or_username : Bytes → Bytes → Bytes
display_or_username display_name username =
    if is_empty (trim_space display_name) then trim_space username else trim_space display_name

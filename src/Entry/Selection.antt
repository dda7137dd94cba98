-- ===== src/Entry/Selection.antt =====
-- Which attributes of an entry a search returns.
use nano_ldap.Prelude.{
  ◌≡◌, refl, Bool, not, ◌&&◌, ◌||◌, List, [], ◌∷◌, any, if◌then◌else◌, Option, none, some, arith,
  Bool-cases, inl, inr, ◌∙◌, is_some,
}
use nano_ldap.Text.{Bytes, codes, beq, to_lower}
use nano_ldap.Text.Case.{beq_iff}
use nano_ldap.Assoc.{get, put, get-put, Distinct}
use nano_ldap.Filter.{Attributes}
use nano_ldap.Entry.{
  DirectoryEntry, is_wildcard, put_found, select_named, select_where, select_requested,
  selected_attributes, requests_all_user, requests_all_operational, is_operational, no_names,
}

-- The name is asked for by itself.
abbrev pub names_it : Bytes → List Bytes → Bool
names_it k = any (λ name. not (is_wildcard (to_lower name)) && beq (to_lower name) k)

get-put_found :
    (name k : Bytes) (o : Option (List Bytes)) (m : Attributes)
    → get k (put_found name o m) ≡ (if beq name k && is_some o then o else get k m)
get-put_found name k none m = ground arith
get-put_found name k (some values) m = ground (arith, get-put name k values m)

get-select_named :
    (attrs : Attributes) (names : List Bytes) (k : Bytes) (m : Attributes)
    → get k (select_named attrs names m)
      ≡ (if names_it k names && is_some (get k attrs) then get k attrs else get k m)
unfolding select_named
get-select_named attrs [] k m = refl
get-select_named attrs (name ∷ names) k m = elim (Bool-cases (is_wildcard (to_lower name))) [
  | inl wild ↦ rw wild (get-select_named attrs names k m)
  | inr plain ↦ rw plain (
      get-select_named attrs names k (put_found (to_lower name) (get (to_lower name) attrs) m)
      ∙ ground (
        arith,
        get-put_found (to_lower name) k (get (to_lower name) attrs) m,
        beq_iff (to_lower name) k,
      ))
]

get-select_where :
    (p : Bytes → Bool) (attrs : Attributes) (k : Bytes) (m : Attributes)
    → Distinct attrs
    → get k (select_where p attrs m)
      ≡ (if p k && is_some (get k attrs) then get k attrs else get k m)
unfolding select_where get
get-select_where p [] k m d = ground arith
get-select_where p ((name, values) ∷ attrs) k m (a, d) = elim (Bool-cases (p name)) [
  | inl yes' ↦ rw yes' (
      get-select_where p attrs k (put name values m) d
      ∙ ground (arith, get-put name k values m, beq_iff name k))
  | inr no' ↦ rw no' (get-select_where p attrs k m d ∙ ground (arith, beq_iff name k))
]

-- The rule: `1.1` asks for nothing, no name at all for everything, `*` for the user attributes, `+` for
-- the operational ones, `all` for both, and a name for itself.
abbrev pub selects : DirectoryEntry → List Bytes → Bytes → Bool
selects entry requested k =
    not (any (beq (codes "1.1")) requested)
    && (no_names requested
        || names_it k requested
        || (requests_all_user requested && not (is_operational entry k))
        || (requests_all_operational requested && is_operational entry k)
        || (requests_all_user requested && requests_all_operational requested))

abbrev nothing : Attributes
nothing = []

get_empty : (k : Bytes) → get k nothing ≡ none
unfolding get
get_empty k = refl

get-select_requested :
    (users operational : Bool) (entry : DirectoryEntry) (requested : List Bytes) (k : Bytes)
    → Distinct entry.attrs
    → get k (select_requested users operational entry requested) ≡ (
        if names_it k requested
          || (users && not (is_operational entry k))
          || (operational && is_operational entry k)
          || (users && operational)
        then get k entry.attrs
        else none)
unfolding select_requested
get-select_requested users operational entry requested k d =
    let named : Attributes = select_named entry.attrs requested [] in
    let p : Bytes → Bool = λ name. not (is_operational entry name) in
    ground (
      arith,
      get-select_named entry.attrs requested k [],
      get-select_where p entry.attrs k named d,
      get-select_where (is_operational entry) entry.attrs k named d,
      get-select_where (is_operational entry) entry.attrs k (select_where p entry.attrs named) d,
      get_empty k,
    )

-- Of an entry that names no attribute twice, the attributes that a search returns are those that
-- the rule selects, with the entry's values.
pub get-selected_attributes :
    (entry : DirectoryEntry) (requested : List Bytes) (k : Bytes)
    → Distinct entry.attrs
    → get k (selected_attributes entry requested)
      ≡ (if selects entry requested k then get k entry.attrs else none)
unfolding selected_attributes
get-selected_attributes entry requested k d =
    elim (Bool-cases (any (beq (codes "1.1")) requested)) [
      | inl none_asked ↦ rw none_asked (unfold get in refl)
      | inr e ↦ rw e (elim (Bool-cases (no_names requested)) [
        | inl all ↦ rw all
        | inr some_names ↦ rw some_names (
            get-select_requested (requests_all_user requested) (requests_all_operational requested)
              entry requested k d)
      ])
    ]

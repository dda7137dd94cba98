-- ===== src/Store/Frame.antt =====
-- The methods of the store that do not set the base DN leave it as it is.
use mathlib.Core.Path.{subst}
use nano_ldap.Prelude.{
  ℕ, ◌||◌, ◌≡◌, refl, List, any, Option, ok, err, IfOk, Result-cases, Option-cases, Bool-cases, inl,
  inr, ap,
}
use nano_ldap.Text.{Bytes, trim_space}
use nano_ldap.Accounts.{UserInput, GroupInput, unique_names, display_or_username}
use nano_ldap.Sql.{
  Tables, has_username, has_name, user_with_id, insert_user, insert_group, add_user, new_user,
  update_user_row, delete_memberships, update_group_row, name_is_taken,
}
use nano_ldap.Store.{
  Stored, is_blank, bool_int, assign_groups, create_user_tx, committed, create_user, updated_hash,
  updated_display, update_user_tx, update_user, create_group, update_group, read_base_dn,
}
use nano_ldap.Store.Assign.{assign_groups-frame}

abbrev pub Keeps : Tables → Tables → Type 0
Keeps t t' = t'.base_dn ≡ t.base_dn

pub read_base_dn-Keeps : (t t' : Tables) → Keeps t t' → read_base_dn t' ≡ read_base_dn t
unfolding read_base_dn
read_base_dn-Keeps t t' e = rw e refl

assign_groups-Keeps :
    (t : Tables) (id : ℕ) (names : List Bytes) → IfOk (Keeps t) (assign_groups t id names)
assign_groups-Keeps t id names = elim (Result-cases (assign_groups t id names)) [
  | inr (x, e) ↦ rw e tt
  | inl (t', e) ↦ rw e (ap (λ x. x.base_dn) (assign_groups-frame t id names t' e))
]

abbrev KeepsFirst : Tables → Tables × ℕ → Type 0
KeepsFirst t (t', id) = Keeps t t'

committed-Keeps :
    (t : Tables) (r : Stored (Tables × ℕ)) → IfOk (KeepsFirst t) r → Keeps t (committed t r).0
committed-Keeps t (err e) h = refl
committed-Keeps t (ok (t', id)) h = h

create_user_tx-Keeps :
    (t : Tables) (now : ℕ) (hash : Bytes) (input : UserInput)
    → IfOk (KeepsFirst t) (create_user_tx t now hash input)
unfolding create_user_tx insert_user
create_user_tx-Keeps t now hash input =
    elim (Bool-cases (any (has_username (trim_space input.username)) t.users)) [
      | inl e ↦ rw e tt
      | inr e ↦
          let row =
            new_user t.next_user (trim_space input.username) hash
              (display_or_username input.display_name input.username) (bool_int input.disabled)
              now in
          elim (Result-cases
            (assign_groups (add_user t row) t.next_user (unique_names input.group_names))) [
              | inr (x, q) ↦ rw (e, q) tt
              | inl (t', q) ↦
                  rw (e, q)
                    (subst (IfOk (Keeps t)) q (
                      assign_groups-Keeps (add_user t row) t.next_user
                        (unique_names input.group_names)))
            ]
    ]

pub create_user-Keeps :
    (hash : Bytes → Option Bytes) (now : ℕ) (t : Tables) (input : UserInput)
    → Keeps t (create_user hash now t input).0
unfolding create_user
create_user-Keeps hash now t input =
    elim (Bool-cases (is_blank input.username || is_blank input.password)) [
      | inl blank ↦ rw blank refl
      | inr given ↦ elim (Option-cases (hash input.password)) [
        | inl q ↦ rw (given, q) refl
        | inr (h, q) ↦
            rw (given, q)
              (committed-Keeps t (create_user_tx t now h input)
                (create_user_tx-Keeps t now h input))
      ]
    ]

update_user_tx-Keeps :
    (hash : Bytes → Option Bytes) (now : ℕ) (t : Tables) (id : ℕ) (input : UserInput)
    → IfOk (KeepsFirst t) (update_user_tx hash now t id input)
unfolding update_user_tx update_user_row delete_memberships
update_user_tx-Keeps hash now t id input = elim (Option-cases (user_with_id t id)) [
  | inl e ↦ rw e tt
  | inr (row, e) ↦ elim (Result-cases (updated_hash hash row.password_hash input.password)) [
    | inr (x, q) ↦ rw (e, q) tt
    | inl (h, q) ↦
        let cleared =
          delete_memberships
            (update_user_row t id (updated_display row.display_name input.display_name) h
              (bool_int input.disabled) now)
            id in
        elim (Result-cases (assign_groups cleared id (unique_names input.group_names))) [
          | inr (x, p) ↦ rw (e, q, p) tt
          | inl (t', p) ↦
              rw (e, q, p)
                (subst (IfOk (Keeps t)) p
                  (assign_groups-Keeps cleared id (unique_names input.group_names)))
        ]
  ]
]

pub update_user-Keeps :
    (hash : Bytes → Option Bytes) (now : ℕ) (t : Tables) (id : ℕ) (input : UserInput)
    → Keeps t (update_user hash now t id input).0
unfolding update_user
update_user-Keeps hash now t id input =
    committed-Keeps t (update_user_tx hash now t id input)
      (update_user_tx-Keeps hash now t id input)

pub create_group-Keeps : (t : Tables) (input : GroupInput) → Keeps t (create_group t input).0
unfolding create_group insert_group
create_group-Keeps t input = elim (Bool-cases (is_blank input.name)) [
  | inl e ↦ rw e refl
  | inr e ↦ elim (Bool-cases (any (has_name (trim_space input.name)) t.groups)) [
    | inl q ↦ rw (e, q) refl
    | inr q ↦ rw (e, q) refl
  ]
]

pub update_group-Keeps :
    (t : Tables) (id : ℕ) (input : GroupInput) → Keeps t (update_group t id input).0
unfolding update_group update_group_row
update_group-Keeps t id input = elim (Bool-cases (is_blank input.name)) [
  | inl e ↦ rw e refl
  | inr e ↦ elim (Bool-cases (name_is_taken t id (trim_space input.name))) [
    | inl q ↦ rw (e, q) refl
    | inr q ↦ rw (e, q) refl
  ]
]

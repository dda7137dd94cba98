-- ===== src/Directory/Normal.antt =====
-- `NormalizeBaseDN` is idempotent, and the settings hold a normalised base DN at all times.
use mathlib.Core.Path.{subst}
use nano_ldap.Prelude.{
  ◌≡◌, ◌≢◌, refl, List, [], ◌∷◌, arith, ok, inl, inr, ◌⊎◌, All, map, ap, >>=-eq-ok, Result-cases,
  ◌∙◌, sym,
}
use nano_ldap.Text.{Bytes, split, join}
use nano_ldap.Text.Split.{Pieces, split-Pieces, split-join, split-ne-nil}
use nano_ldap.Directory.{
  normalize_parts, normalize_pieces, normalize_base_dn, Settings, new_settings, set_base_dn,
}
use nano_ldap.Directory.Components.{
  IsComponent, component, normalize_parts-component, normalize_parts_sound,
}

-- The base DN `dc=v1,dc=v2,…` of a list of components that is not empty.
pub record IsNormal (s : Bytes) : Type 0 where
  pub first : Bytes
  pub others : List Bytes
  pub are_components : All IsComponent (first ∷ others)
  pub shape : s ≡ join b',' (map component (first ∷ others))

pub Pieces-components : (vs : List Bytes) → All IsComponent vs → Pieces b',' (map component vs)
Pieces-components [] h = tt
Pieces-components (v ∷ vs) (c, h) = (c.no_comma, Pieces-components vs h)

normalize_pieces_step :
    (xs out : List Bytes)
    → xs ≢ []
    → normalize_parts xs ≡ ok out
    → normalize_pieces xs ≡ ok (join b',' out)
unfolding normalize_pieces
normalize_pieces_step [] out ne q = absurd (ne refl)
normalize_pieces_step (x ∷ xs) out ne q = rw q

pub normalize_base_dn-IsNormal : (s : Bytes) → IsNormal s → normalize_base_dn s ≡ ok s
normalize_base_dn-IsNormal s n =
    let vs : List Bytes = n.first ∷ n.others in
    let cut_back = split-join b',' _ _ (Pieces-components vs n.are_components) in
    let same : split b',' s ≡ map component vs = ap (split b',') n.shape ∙ cut_back in
    unfold normalize_base_dn in
    (ap normalize_pieces same
      ∙ normalize_pieces_step (map component vs) _ (λ e. cc)
          (normalize_parts-component vs n.are_components)
      ∙ ap ok (sym n.shape))

parts-IsNormal :
    (parts out : List Bytes)
    → parts ≢ []
    → Pieces b',' parts
    → normalize_parts parts ≡ ok out
    → IsNormal (join b',' out)
parts-IsNormal parts out ne p e = of_values _ q.1 q.2
  where
    q : (vs : List Bytes) × (out ≡ map component vs) × All IsComponent vs
    q = normalize_parts_sound parts out p e

    of_values :
        (vs : List Bytes) → out ≡ map component vs → All IsComponent vs → IsNormal (join b',' out)
    of_values [] eq cs = absurd (empty parts ne (e ∙ ap ok eq))
      where
        empty : (xs : List Bytes) → xs ≢ [] → normalize_parts xs ≡ ok [] → ⊥
        empty [] h k = h refl
        empty (x ∷ xs) h k = unfold normalize_parts in ground arith
    of_values (v ∷ vs) eq cs = record {
      first = v;
      others = vs;
      are_components = cs;
      shape = ap (join b',') eq;
    }

normalize_pieces_sound :
    (xs : List Bytes) (t : Bytes)
    → xs ≢ []
    → Pieces b',' xs
    → normalize_pieces xs ≡ ok t
    → IsNormal t
unfolding normalize_pieces
normalize_pieces_sound [] t ne p e = absurd (ne refl)
normalize_pieces_sound (x ∷ xs) t ne p e =
    let (out, q, r) = >>=-eq-ok (normalize_parts (x ∷ xs)) _ e in
    subst IsNormal (ground arith) (parts-IsNormal (x ∷ xs) out ne p q)

-- Whatever `NormalizeBaseDN` returns is a nonempty list of domain components `dc=VALUE` joined by
-- commas, each value trimmed, not empty and without a comma.
pub IsNormal-normalize_base_dn : (s t : Bytes) → normalize_base_dn s ≡ ok t → IsNormal t
unfolding normalize_base_dn
IsNormal-normalize_base_dn s t =
    normalize_pieces_sound (split b',' s) t (split-ne-nil b',' s) (split-Pieces b',' s)

-- A base DN that `NormalizeBaseDN` returns is one that it accepts and leaves as it is.
pub normalize_base_dn_idem : (s t : Bytes) → normalize_base_dn s ≡ ok t → normalize_base_dn t ≡ ok t
normalize_base_dn_idem s t e = normalize_base_dn-IsNormal t (IsNormal-normalize_base_dn s t e)

abbrev pub HoldsNormal : Settings → Type 0
HoldsNormal st = normalize_base_dn st.base_dn ≡ ok st.base_dn

pub new_settings-HoldsNormal : (s : Bytes) (st : Settings) → new_settings s ≡ ok st → HoldsNormal st
unfolding new_settings
new_settings-HoldsNormal s st e =
    let (n, q, r) = >>=-eq-ok (normalize_base_dn s) _ e in
    ground (arith, normalize_base_dn_idem s n q)

-- `SetBaseDN` keeps settings whose base DN is its own normal form so, on every branch: it stores
-- the normalised form of its argument, or it changes nothing.
pub set_base_dn-HoldsNormal :
    (st : Settings) (s : Bytes)
    → HoldsNormal st
    → HoldsNormal (set_base_dn st s).0
      × ((normalize_base_dn s ≡ ok (set_base_dn st s).0.base_dn) ⊎ ((set_base_dn st s).0 ≡ st))
unfolding set_base_dn
set_base_dn-HoldsNormal st s h = elim (Result-cases (normalize_base_dn s)) [
  | inl (n, q) ↦ (ground (arith, normalize_base_dn_idem s n q), inl (ground arith))
  | inr (x, q) ↦ (ground arith, inr (ground arith))
]

-- ===== src/Dn/Normalize.antt =====
-- `normalizeDN` is idempotent and forgets case.
use nano_ldap.Prelude.{◌≡◌, ◌≢◌, refl, List, [], ◌∷◌, map, ap, ◌∙◌}
use nano_ldap.Text.{Bytes, lower, to_lower, trim_space, split, join}
use nano_ldap.Text.Case.{
  to_lower-to_lower, to_lower-append, trim_space-to_lower, trim_space-trim_space, has-trim_space,
  has-to_lower_comma,
}
use nano_ldap.Text.Split.{Pieces, split-Pieces, split-join, split-ne-nil}
use nano_ldap.Dn.{normalize_rdn, normalize_dn}

pub normalize_rdn_idem : (s : Bytes) → normalize_rdn (normalize_rdn s) ≡ normalize_rdn s
normalize_rdn_idem s =
    ap to_lower (trim_space-to_lower (trim_space s) ∙ ap to_lower (trim_space-trim_space s))
    ∙ to_lower-to_lower (trim_space s)

pub map-normalize_rdn_idem :
    (xs : List Bytes) → map normalize_rdn (map normalize_rdn xs) ≡ map normalize_rdn xs
map-normalize_rdn_idem [] = refl
map-normalize_rdn_idem (x ∷ xs) = cc (normalize_rdn_idem x, map-normalize_rdn_idem xs)

pub Pieces-normalize_rdn : (xs : List Bytes) → Pieces b',' xs → Pieces b',' (map normalize_rdn xs)
Pieces-normalize_rdn [] h = tt
Pieces-normalize_rdn (x ∷ xs) (h, hs) =
    (has-to_lower_comma (trim_space x) (has-trim_space b',' x h), Pieces-normalize_rdn xs hs)

split-join_all : (xs : List Bytes) → xs ≢ [] → Pieces b',' xs → split b',' (join b',' xs) ≡ xs
split-join_all [] ne p = absurd (ne refl)
split-join_all (x ∷ xs) ne p = split-join b',' x xs p

pub map-ne-nil : (f : Bytes → Bytes) (xs : List Bytes) → xs ≢ [] → map f xs ≢ []
map-ne-nil f [] ne e = ne refl
map-ne-nil f (x ∷ xs) ne e = cc

pub split-normalize_dn :
    (s : Bytes) → split b',' (normalize_dn s) ≡ map normalize_rdn (split b',' s)
unfolding normalize_dn
split-normalize_dn s =
    split-join_all _ (map-ne-nil normalize_rdn _ (split-ne-nil b',' s))
      (Pieces-normalize_rdn _ (split-Pieces b',' s))

pub normalize_dn_idem : (s : Bytes) → normalize_dn (normalize_dn s) ≡ normalize_dn s
unfolding normalize_dn
normalize_dn_idem s =
    ap (λ xs. join b',' (map normalize_rdn xs)) (split-normalize_dn s)
    ∙ ap (join b',') (map-normalize_rdn_idem (split b',' s))

lower_comma : (s : Bytes) → to_lower (b',' ∷ s) ≡ b',' ∷ to_lower s
unfolding to_lower lower
lower_comma s = refl

lower_pieces :
    (xs : List Bytes)
    → to_lower (join b',' (map normalize_rdn xs)) ≡ join b',' (map normalize_rdn xs)
unfolding join
lower_pieces [] = unfold to_lower in refl
lower_pieces (x ∷ []) = to_lower-to_lower (trim_space x)
lower_pieces (x ∷ y ∷ xs) =
    to_lower-append (normalize_rdn x) _
    ∙ cc (
      to_lower-to_lower (trim_space x),
      lower_comma (join b',' (map normalize_rdn (y ∷ xs))),
      lower_pieces (y ∷ xs),
    )

-- A normalised name is in lower case.
pub to_lower-normalize_dn : (s : Bytes) → to_lower (normalize_dn s) ≡ normalize_dn s
unfolding normalize_dn
to_lower-normalize_dn s = lower_pieces (split b',' s)

-- ===== src/Directory/Components.antt =====
-- What a part of a normalised base DN looks like.
use nano_ldap.Prelude.{
  ℕ, ◌≡◌, ◌≢◌, refl, true, false, List, [], ◌∷◌, ◌++◌, arith, ok, some, inl, inr, Option-cases, All,
  map, ◌∙◌, >>=-eq-ok,
}
use nano_ldap.Text
use nano_ldap.Text.{
  Bytes, codes, is_empty, equal_fold, trim_space, trim_right, split, join, cut, is_space, beq,
  to_lower,
}
use nano_ldap.Text.Case.{
  has, has-trim_space, trim_space-trim_space, trim_space_prepend, trim_right_solid,
  trim_right-of_trim_space,
}
use nano_ldap.Text.Split.{cut_first, cut_sound}
use nano_ldap.Directory.{normalize_pair, normalize_part, normalize_parts}

-- The value of a domain component: trimmed, not empty, with no comma.
pub record IsComponent (v : Bytes) : Type 0 where
  pub is_trimmed : trim_space v ≡ v
  pub ne_nil : v ≢ []
  pub no_comma : has b',' v ≡ false

abbrev pub component : Bytes → Bytes
component v = codes "dc=" ++ v

trim_right-component : (v : Bytes) → IsComponent v → trim_right (codes "c=" ++ v) ≡ codes "c=" ++ v
trim_right-component [] c = absurd (c.ne_nil refl)
trim_right-component (x ∷ v) c =
    trim_right_solid (codes "c=") v x (trim_right-of_trim_space (x ∷ v) c.is_trimmed)

pub trim_space-component : (v : Bytes) → IsComponent v → trim_space (component v) ≡ component v
trim_space-component v c =
    trim_space_prepend b'd' (codes "c=" ++ v) (unfold is_space in refl) (trim_right-component v c)

pub cut-component :
    (v : Bytes) → IsComponent v → cut b'=' (trim_space (component v)) ≡ some (codes "dc", v)
cut-component v c = rw (trim_space-component v c) (cut_first b'=' (codes "dc") v refl)

pub dc_matches : equal_fold (trim_space (codes "dc")) (codes "dc") ≡ true
unfolding equal_fold trim_space Text.trim_left trim_right is_space beq to_lower Text.lower
dc_matches = refl

normalize_pair-component :
    (v : Bytes) → IsComponent v → normalize_pair (codes "dc") v ≡ ok (component v)
unfolding normalize_pair
normalize_pair-component [] c = absurd (c.ne_nil refl)
normalize_pair-component (x ∷ v) c = ground (arith, dc_matches, c.is_trimmed)

normalize_part_step :
    (part attr value : Bytes)
    → cut b'=' (trim_space part) ≡ some (attr, value)
    → normalize_part part ≡ normalize_pair attr value
unfolding normalize_part
normalize_part_step part attr value e = rw (e, normalize_part)

normalize_part-component :
    (v : Bytes) → IsComponent v → normalize_part (component v) ≡ ok (component v)
normalize_part-component v c =
    normalize_part_step (component v) (codes "dc") v (cut-component v c)
    ∙ normalize_pair-component v c

no_comma_behind : (b : ℕ) (x y : Bytes) → has b',' (x ++ (b ∷ y)) ≡ false → has b',' y ≡ false
no_comma_behind b [] y h = ground arith
no_comma_behind b (c ∷ x) y h = ground (arith, no_comma_behind b x y)

normalize_pair_sound :
    (attr value out : Bytes)
    → has b',' value ≡ false
    → normalize_pair attr value ≡ ok out
    → (v : Bytes) × (out ≡ component v) × IsComponent v
unfolding normalize_pair
normalize_pair_sound attr value out h e = (
  trim_space value,
  ground arith,
  record {
    is_trimmed = trim_space-trim_space value;
    ne_nil = λ n. ground arith;
    no_comma = has-trim_space b',' value h;
  },
)

-- A part that is accepted becomes a component.
normalize_part_sound :
    (part out : Bytes)
    → has b',' part ≡ false
    → normalize_part part ≡ ok out
    → (v : Bytes) × (out ≡ component v) × IsComponent v
unfolding normalize_part
normalize_part_sound part out h e = elim (Option-cases (cut b'=' (trim_space part))) [
  | inl q ↦ absurd (ground arith)
  | inr ((attr, value), q) ↦
      let (shape, _) = cut_sound b'=' (trim_space part) attr value q in
      normalize_pair_sound attr value out
        (no_comma_behind b'=' attr value (rw shape at (has-trim_space b',' part h))) (ground arith)
]

pub normalize_parts-component :
    (vs : List Bytes)
    → All IsComponent vs
    → normalize_parts (map component vs) ≡ ok (map component vs)
unfolding normalize_parts
normalize_parts-component [] h = refl
normalize_parts-component (v ∷ vs) (c, h) =
    rw (normalize_part-component v c, normalize_parts-component vs h)

pub normalize_parts_sound :
    (parts out : List Bytes)
    → All (λ x. has b',' x ≡ false) parts
    → normalize_parts parts ≡ ok out
    → (vs : List Bytes) × (out ≡ map component vs) × All IsComponent vs
unfolding normalize_parts
normalize_parts_sound [] out h e = ([], ground arith, tt)
normalize_parts_sound (part ∷ parts) out (h, hs) e =
    let (x, q, e₁) = >>=-eq-ok (normalize_part part) _ e in
    let (xs, r, e₂) = >>=-eq-ok (normalize_parts parts) _ e₁ in
    let (v, ev, c) = normalize_part_sound part x h q in
    let (vs, evs, cs) = normalize_parts_sound parts xs hs r in (v ∷ vs, ground arith, (c, cs))

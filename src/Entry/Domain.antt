-- ===== src/Entry/Domain.antt =====
-- The `dc` attribute of the base entry against the base DN of the settings.
use nano_ldap.Prelude.{◌≡◌, refl, List, [], ◌∷◌, ◌++◌, map, ap, ◌∙◌, All}
use nano_ldap.Text.{Bytes, split}
use nano_ldap.Text.Split.{split-join}
use nano_ldap.Directory.Components.{IsComponent, component, cut-component, dc_matches}
use nano_ldap.Directory.Normal.{IsNormal, Pieces-components}
use nano_ldap.Entry.{dc_value, dc_values, dc_components}

dc_value-component : (v : Bytes) → IsComponent v → dc_value (component v) ≡ v ∷ []
unfolding dc_value
dc_value-component v c = rw (cut-component v c, dc_value, dc_matches, c.is_trimmed)

dc_values-component : (vs : List Bytes) → All IsComponent vs → dc_values (map component vs) ≡ vs
unfolding dc_values
dc_values-component [] h = refl
dc_values-component (v ∷ vs) (c, h) =
    ap (λ xs. xs ++ dc_values (map component vs)) (dc_value-component v c)
    ∙ ap (◌∷◌ v) (dc_values-component vs h)

-- Of a normalised base DN the `dc` attribute lists exactly the values of its components, in order.
pub dc_components-IsNormal :
    (base : Bytes) (n : IsNormal base) → dc_components base ≡ n.first ∷ n.others
dc_components-IsNormal base n =
    let vs : List Bytes = n.first ∷ n.others in
    let parts : split b',' base ≡ map component vs =
      ap (split b',') n.shape ∙ split-join b',' _ _ (Pieces-components vs n.are_components) in
    unfold dc_components in (ap dc_values parts ∙ dc_values-component vs n.are_components)

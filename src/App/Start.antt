-- ===== src/App/Start.antt =====
-- After `New`, and any requests to the web server, the store is valid and agrees with the settings.
use mathlib.Core.Path.{subst}
use nano_ldap.Prelude.{ℕ, Bool, true, false, ◌≡◌, refl, List, Option, none, some, ok, err}
use nano_ldap.Text.{Bytes}
use nano_ldap.Directory.{new_settings}
use nano_ldap.Sql.{Tables}
use nano_ldap.Sql.Valid.{IsValid}
use nano_ldap.Store.{Stored, read_base_dn, ensure_base_dn}
use nano_ldap.Store.Seed.{seed_defaults}
use nano_ldap.Store.BaseDn.{ensure_base_dn_once, read_base_dn_normal}
use nano_ldap.Store.Integrity.{Call, perform-IsValid}
use nano_ldap.Config.{Config}
use nano_ldap.Site.{Site, Request, Moment, Route, handle_all}
use nano_ldap.Site.Agreement.{Agrees, handle_all-Agrees}
use nano_ldap.Site.Integrity.{handle_all-IsValid}
use nano_ldap.App.{with_audit, with_base_dn, with_defaults, new}

-- The tables are valid, and their base DN is that of the settings.
pub record IsConsistent (st : Site) : Type 0 where
  pub valid : IsValid st.db
  pub agrees : Agrees st

abbrev IfSome : {A : Type 0} → (A → Type 0) → Option A → Type 0
IfSome P none = Unit
IfSome P (some a) = P a

with_audit-IsConsistent :
    (opens : Bool) (cfg : Config) (t : Tables) (b : Bytes)
    → IsValid t
    → read_base_dn t ≡ ok b
    → IfSome IsConsistent (with_audit opens cfg t (new_settings b)).1
unfolding new_settings
with_audit-IsConsistent false cfg t b v e = rw (read_base_dn_normal t b e) tt
with_audit-IsConsistent true cfg t b v e =
    rw (read_base_dn_normal t b e) (record { valid = v; agrees = e })

with_base_dn-IsConsistent :
    (opens : Bool) (cfg : Config) (t : Tables) (p : Tables × Stored Bytes)
    → IsValid p.0
    → ensure_base_dn t cfg.base_dn ≡ p
    → IfSome IsConsistent (with_base_dn opens cfg p).1
with_base_dn-IsConsistent opens cfg t (t', err x) v e = tt
with_base_dn-IsConsistent opens cfg t (t', ok b) v e =
    with_audit-IsConsistent opens cfg t' b v
      (ensure_base_dn_once t cfg.base_dn cfg.base_dn t' b e).0

with_defaults-IsConsistent :
    (opens : Bool) (cfg : Config) (p : Tables × Stored (Unit {0}))
    → IsValid p.0
    → IfSome IsConsistent (with_defaults opens cfg p).1
with_defaults-IsConsistent opens cfg (t, err x) v = tt
with_defaults-IsConsistent opens cfg (t, ok _) v =
    with_base_dn-IsConsistent opens cfg t (ensure_base_dn t cfg.base_dn)
      (perform-IsValid t (Call.ensures_base_dn cfg.base_dn) v) refl

new-IsConsistent :
    (pair opens : Bool) (hash : Bytes → Option Bytes) (now : ℕ) (cfg : Config) (t : Tables)
    → IsValid t
    → IfSome IsConsistent (new pair opens hash now cfg t).1
unfolding new
new-IsConsistent false opens hash now cfg t v = tt
new-IsConsistent true opens hash now cfg t v =
    with_defaults-IsConsistent opens cfg (seed_defaults hash now t)
      (perform-IsValid t (Call.seeds hash now) v)

-- Where `New` starts the program on valid tables, then after any sequence of requests to the web
-- server, whatever the clock, the random source and the hashes give for each of them, the tables
-- are valid, and the base DN that the store returns is the one in the settings, which the LDAP
-- server uses.
pub handle_all-new :
    (pair opens : Bool) (hash : Bytes → Option Bytes) (now : ℕ) (cfg : Config) (t t' : Tables)
    (site : Site) (requests : List (Moment × Route × Request))
    → IsValid t
    → new pair opens hash now cfg t ≡ (t', some site)
    → IsConsistent (handle_all site requests)
handle_all-new pair opens hash now cfg t t' site requests v e =
    let c : IsConsistent site =
      subst (λ p. IfSome IsConsistent p.1) e (new-IsConsistent pair opens hash now cfg t v) in
    record {
      valid = handle_all-IsValid site requests c.valid;
      agrees = handle_all-Agrees site requests c.agrees;
    }

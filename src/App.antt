-- ===== src/App.antt =====
-- `New` of internal/app/app.go: the store, its defaults, the base DN, the settings and the sessions.
pub mod Start
use nano_ldap.Prelude.{ℕ, Bool, true, false, Option, none, some, Result, ok, err, if◌then◌else◌}
use nano_ldap.Text.{Bytes}
use nano_ldap.Directory.{BaseDnError, Settings, new_settings}
use nano_ldap.Session.{new_store}
use nano_ldap.Sql.{Tables}
use nano_ldap.Store.{Stored, ensure_base_dn}
use nano_ldap.Store.Seed.{seed_defaults}
use nano_ldap.Config.{Config}
use nano_ldap.Site.{Site}

-- `audit.New`, behind the settings. What failed leaves its changes in the database.
abbrev pub with_audit : Bool → Config → Tables → Result BaseDnError Settings → Tables × Option Site
with_audit opens cfg t (err e) = (t, none)
with_audit opens cfg t (ok settings) =
    if opens
    then (
      t,
      some (record {
        db = t;
        sessions = new_store cfg.session_idle_timeout cfg.session_max;
        settings = settings;
      }),
    )
    else (t, none)

abbrev pub with_base_dn : Bool → Config → Tables × Stored Bytes → Tables × Option Site
with_base_dn opens cfg (t, err e) = (t, none)
with_base_dn opens cfg (t, ok base_dn) = with_audit opens cfg t (new_settings base_dn)

abbrev pub with_defaults : Bool → Config → Tables × Stored (Unit {0}) → Tables × Option Site
with_defaults opens cfg (t, err e) = (t, none)
with_defaults opens cfg (t, ok _) = with_base_dn opens cfg (ensure_base_dn t cfg.base_dn)

-- `New`, on the tables of the database that `store.Open` opens. `pair` is what `EnsurePair` reports of
-- the certificate, and `opens` what `audit.New` reports.
unfoldable pub new :
    Bool → Bool → (Bytes → Option Bytes) → ℕ → Config → Tables → Tables × Option Site
new pair opens hash now cfg t =
    if pair then with_defaults opens cfg (seed_defaults hash now t) else (t, none)

-- ===== src/Store/BaseDn.antt =====
-- The stored base DN: what is written is read back, and the fallback is written once.
use nano_ldap.Prelude.{
  Option-cases, ◌≡◌, refl, arith, some, Result-cases, inl, inr, ok, err, ◌∙◌, sym, ap,
}
use nano_ldap.Text.{Bytes}
use nano_ldap.Directory.{normalize_base_dn}
use nano_ldap.Directory.Normal.{normalize_base_dn_idem}
use nano_ldap.Sql.{Tables, insert_base_dn, upsert_base_dn}
use nano_ldap.Store.{
  required, no_rows, constraint, unknown_group, hash_failed, bad_base_dn, Stored, normalized,
  read_base_dn, set_base_dn, insert_fallback, ensure_base_dn,
}

normalized-ok : (s n : Bytes) → normalized s ≡ ok n → normalize_base_dn s ≡ ok n
unfolding normalized
normalized-ok s n e = elim (Result-cases (normalize_base_dn s)) [
  | inl (m, q) ↦ ground arith
  | inr (x, q) ↦ absurd (ground arith)
]

normalized_idem : (s n : Bytes) → normalized s ≡ ok n → normalized n ≡ ok n
unfolding normalized
normalized_idem s n e =
    let again : normalize_base_dn n ≡ ok n = normalize_base_dn_idem s n (normalized-ok s n e) in
    rw (again, normalized)

-- `SetBaseDN` of a base DN that has a normal form stores it, and `BaseDN` then returns it.
pub read_base_dn-set_base_dn :
    (t t' : Tables) (s n : Bytes)
    → normalize_base_dn s ≡ ok n
    → (set_base_dn t s ≡ (record t { base_dn = some n }, ok tt))
      × (read_base_dn (set_base_dn t s).0 ≡ ok n)
unfolding set_base_dn upsert_base_dn read_base_dn normalized
read_base_dn-set_base_dn t t' s n e =
    let q : normalized s ≡ ok n = rw (e, normalized) in
    (rw (q, set_base_dn), rw (q, set_base_dn) (normalized_idem s n q))

insert_fallback-read :
    (t : Tables) (fallback : Bytes) (t' : Tables) (n : Bytes)
    → insert_fallback t fallback ≡ (t', ok n)
    → read_base_dn t' ≡ ok n
unfolding insert_fallback
insert_fallback-read t fallback t' n e = elim (Result-cases (normalized fallback)) [
  | inl (m, q) ↦
      let here : (insert_base_dn t m, read_base_dn (insert_base_dn t m)) ≡ (t', ok n) =
        rw (q, insert_fallback) at e in
      ap read_base_dn (sym (ap (λ r. r.0) here)) ∙ ap (λ r. r.1) here
  | inr (x, q) ↦ absurd (ground arith)
]

ensure_base_dn-read :
    (t : Tables) (fallback : Bytes) (t' : Tables) (n : Bytes) (r : Stored Bytes)
    → read_base_dn t ≡ r
    → ensure_base_dn t fallback ≡ (t', ok n)
    → read_base_dn t' ≡ ok n
unfolding ensure_base_dn
ensure_base_dn-read t fallback t' n (ok m) q e =
    let here : (t, ok m) ≡ (t', ok n) = rw (q, ensure_base_dn) at e in
    ap read_base_dn (sym (ap (λ x. x.0) here)) ∙ q ∙ ap (λ x. x.1) here
ensure_base_dn-read t fallback t' n (err no_rows) q e =
    insert_fallback-read t fallback t' n (rw (q, ensure_base_dn) at e)
ensure_base_dn-read t fallback t' n (err required) q e =
    absurd (ground (arith, rw (q, ensure_base_dn) at e))
ensure_base_dn-read t fallback t' n (err constraint) q e =
    absurd (ground (arith, rw (q, ensure_base_dn) at e))
ensure_base_dn-read t fallback t' n (err unknown_group) q e =
    absurd (ground (arith, rw (q, ensure_base_dn) at e))
ensure_base_dn-read t fallback t' n (err hash_failed) q e =
    absurd (ground (arith, rw (q, ensure_base_dn) at e))
ensure_base_dn-read t fallback t' n (err (bad_base_dn x)) q e =
    absurd (ground (arith, rw (q, ensure_base_dn) at e))

-- Where `EnsureBaseDN` succeeds, the store then has the base DN that it returned, and another call,
-- whatever its fallback, returns the same and changes nothing.
pub ensure_base_dn_once :
    (t : Tables) (fallback other : Bytes) (t' : Tables) (n : Bytes)
    → ensure_base_dn t fallback ≡ (t', ok n)
    → (read_base_dn t' ≡ ok n) × (ensure_base_dn t' other ≡ (t', ok n))
unfolding ensure_base_dn
ensure_base_dn_once t fallback other t' n e =
    let q : read_base_dn t' ≡ ok n = ensure_base_dn-read t fallback t' n (read_base_dn t) refl e in
    (q, rw (q, ensure_base_dn))

-- What `BaseDN` returns is its own normal form.
pub read_base_dn_normal :
    (t : Tables) (n : Bytes) → read_base_dn t ≡ ok n → normalize_base_dn n ≡ ok n
unfolding read_base_dn
read_base_dn_normal t n e = elim (Option-cases t.base_dn) [
  | inl q ↦ absurd (ground arith)
  | inr (s, q) ↦ normalize_base_dn_idem s n (normalized-ok s n (ground arith))
]

-- ===== src/Server/Bind/Requests.antt =====
-- `handleBind` behind the tests of the connection and of the rate limit: what a request asks for and
-- what it gets.
use mathlib.Core.Path.{subst}
use nano_ldap.Prelude.{
  ℕ, ◌≡◌, ◌≢◌, refl, true, false, not, ◌&&◌, ◌||◌, ◌⊎◌, [], arith, Option, none, some, Option-cases,
  Bool-cases, inl, inr, ◌==◌, ◌<◌, length, ok, ◌∷◌, Result-cases, ap, sym, ◌∙◌,
}
use nano_ldap.Text.{Bytes, is_empty}
use nano_ldap.Dn.{username_from_dn}
use nano_ldap.Ber.Reader.{Packet, Packets, nil, cons, class, tag, content, int, class_context}
use nano_ldap.Entry.{User}
use nano_ldap.Message.{to_option}
use nano_ldap.ResultCode
use nano_ldap.Connection.{Backend, ConnState, Reply, result_message}
use nano_ldap.Server.{finish_bind, simple_bind, bind_request, is_version_3}
use nano_ldap.Server.Accepts.{IsSimpleBind, Authenticated, AsksAnonymously, AsksAs}

abbrev pub anonymous_conn : ConnState → ConnState
anonymous_conn st = record st { bound = true; anonymous = true; had_successful_bind = true }

abbrev pub user_conn : ConnState → User → ConnState
user_conn st user = record st {
  user = user;
  bound = true;
  anonymous = false;
  had_successful_bind = true;
}

-- What a request asks for, whether or not the connection is open to it.
abbrev pub Asks : Bytes → Backend → Packets → Type 0
Asks base env ps = AsksAnonymously ps ⊎ ((user : User) × AsksAs base env ps user)

-- The outcome of a request on an open connection.
pub data Request (base : Bytes) (env : Backend) (st : ConnState) (id : ℕ) (ps : Packets) (r : Reply)
    : Type 0 where
  refuses :
      (code : ℕ) (diagnostic : Bytes)
      → ¬ Asks base env ps
      → code ≢ ResultCode.success
      → length diagnostic < 100
      → r.conn ≡ st
      → r.response ≡ result_message id 1 code diagnostic
      → Request base env st id ps r
  admits :
      AsksAnonymously ps
      → r.conn ≡ anonymous_conn st
      → r.response ≡ result_message id 1 ResultCode.success []
      → Request base env st id ps r
  admits_user :
      (user : User)
      → AsksAs base env ps user
      → r.conn ≡ user_conn st user
      → r.response ≡ result_message id 1 ResultCode.success []
      → Request base env st id ps r

both_empty : (s t : Bytes) → (is_empty s && is_empty t) ≡ true → (s ≡ []) × (t ≡ [])
both_empty [] [] e = (refl, refl)
both_empty [] (b ∷ t) e = absurd (ground arith)
both_empty (a ∷ s) t e = absurd (ground arith)

not_both_empty : (s t : Bytes) → (is_empty s && is_empty t) ≡ false → ¬ ((s ≡ []) × (t ≡ []))
not_both_empty [] [] e (p, q) = ground arith
not_both_empty [] (b ∷ t) e (p, q) = ground arith
not_both_empty (a ∷ s) t e (p, q) = ground arith

-- The store's answer under the name that the DN stands for decides.
answer_of :
    (base : Bytes) (env : Backend) (dn password username : Bytes) (user : User)
    → username_from_dn base dn ≡ some username
    → Authenticated base env dn password user
    → env.authenticate_user username password ≡ some user
answer_of base env dn password username user names proof =
    let same : proof.username ≡ username = cc (proof.names, names) in
    ap (λ n. env.authenticate_user n password) (sym same) ∙ proof.confirmed

disabled_user : (user u : User) → user.disabled ≡ true → u.disabled ≡ false → some user ≡ some u → ⊥
disabled_user user u off on e =
    let same : user ≡ u = cc e in absurd (ground (arith, ap (λ v. v.disabled) same, off, on))

is_version_3_lem : (v : Packet) → is_version_3 (to_option (int v)) ≡ true → int v ≡ ok 3
is_version_3_lem v h = elim (Result-cases (int v)) [
  | inl (version, e) ↦
      e ∙ ap ok (ground (arith, subst (λ r. is_version_3 (to_option r) ≡ true) e h))
  | inr (x, e) ↦ absurd (ground (arith, subst (λ r. is_version_3 (to_option r) ≡ true) e h))
]

old_version : (v : Packet) → not (is_version_3 (to_option (int v))) ≡ true → ¬ (int v ≡ ok 3)
old_version v h e =
    absurd (ground (arith, subst (λ r. not (is_version_3 (to_option r)) ≡ true) e h))

other_auth :
    (a : Packet)
    → (not (class a == class_context) || not (tag a == 0)) ≡ true
    → class a ≡ class_context
    → ¬ (tag a ≡ 0)
other_auth a h c t = absurd (ground arith)

simple_auth :
    (a : Packet)
    → (not (class a == class_context) || not (tag a == 0)) ≡ false
    → (class a ≡ class_context) × (tag a ≡ 0)
simple_auth a h = (ground arith, ground arith)

module _ (base : Bytes) (env : Backend) (st : ConnState) (id : ℕ) where
  module _ (v n a : Packet) (ps : Packets)
      (simple : IsSimpleBind (cons v (cons n (cons a ps)))) where
    -- The request.
    abbrev request : Packets
    request = cons v (cons n (cons a ps))

    unconfirmed :
        (is_empty (content n) && is_empty (content a)) ≡ false
        → ((user : User) → ¬ Authenticated base env (content n) (content a) user)
        → ¬ Asks base env request
    unconfirmed given no_user (inl (_, empty_dn, empty_pw)) =
        not_both_empty (content n) (content a) given (empty_dn, empty_pw)
    unconfirmed given no_user (inr (user, (_, proof))) = no_user user proof

    finish_bind-Request :
        (username : Bytes) (found : Option User)
        → (is_empty (content n) && is_empty (content a)) ≡ false
        → username_from_dn base (content n) ≡ some username
        → env.authenticate_user username (content a) ≡ found
        → Request base env st id request (finish_bind st id username found)
    unfolding finish_bind
    finish_bind-Request username none given names e =
        refuses _ _
          (unconfirmed given
            (λ u p. absurd (ground (arith, answer_of base env _ _ username u names p, e))))
          (omega arith) (omega arith) refl refl
    finish_bind-Request username (some user) given names e = elim (Bool-cases user.disabled) [
      | inl off ↦ simp off (
          refuses _ _
            (unconfirmed given (λ u p.
              disabled_user user u off p.enabled
                (sym e ∙ answer_of base env _ _ username u names p)))
            (omega arith) (omega arith) refl refl)
      | inr on ↦ simp on (
          admits_user user
            (
              simple,
              record {
                given = given;
                username = username;
                names = names;
                confirmed = e;
                enabled = on;
              },
            )
            refl refl)
    ]

    simple_bind-Request :
        Request base env st id request (simple_bind base env st id (content n) (content a))
    unfolding simple_bind
    simple_bind-Request = elim (Bool-cases (is_empty (content n) && is_empty (content a))) [
      | inl none_given ↦ rw none_given (
          admits
            (
              simple,
              (both_empty (content n) (content a) none_given).0,
              (both_empty (content n) (content a) none_given).1,
            )
            refl refl)
      | inr given ↦ elim (Option-cases (username_from_dn base (content n))) [
        | inl bad ↦
            rw (given, bad)
              (refuses _ _ (unconfirmed given (λ u p. absurd (ground (arith, p.names, bad))))
                (omega arith) (omega arith) refl refl)
        | inr (username, good) ↦ rw (given, good) (finish_bind-Request username _ given good refl)
      ]
    ]

  Asks-IsSimpleBind : (ps : Packets) → Asks base env ps → IsSimpleBind ps
  Asks-IsSimpleBind ps (inl (simple, _, _)) = simple
  Asks-IsSimpleBind ps (inr (user, (simple, _))) = simple

  pub bind_request-Request :
      (ps : Packets) → Request base env st id ps (bind_request base env st id ps)
  unfolding bind_request
  bind_request-Request nil =
      refuses _ _ (λ h. Asks-IsSimpleBind nil h) (omega arith) (omega arith) refl refl
  bind_request-Request (cons v nil) =
      refuses _ _ (λ h. Asks-IsSimpleBind (cons v nil) h) (omega arith) (omega arith) refl refl
  bind_request-Request (cons v (cons n nil)) =
      refuses _ _ (λ h. Asks-IsSimpleBind (cons v (cons n nil)) h) (omega arith) (omega arith) refl
        refl
  bind_request-Request (cons v (cons n (cons a ps))) =
      elim (Bool-cases (not (is_version_3 (to_option (int v))))) [
        | inl old ↦ rw old (
            refuses _ _
              (λ h. old_version v old (Asks-IsSimpleBind (cons v (cons n (cons a ps))) h).0)
              (omega arith) (omega arith) refl refl)
        | inr three ↦
            rw three (elim (Bool-cases (not (class a == class_context) || not (tag a == 0))) [
              | inl other ↦ rw other (
                  refuses _ _
                    (λ h.
                      let s = Asks-IsSimpleBind (cons v (cons n (cons a ps))) h in
                      other_auth a other s.1 s.2)
                    (omega arith) (omega arith) refl refl)
              | inr simple ↦ rw simple (
                  simple_bind-Request v n a ps (
                    is_version_3_lem v (ground arith),
                    (simple_auth a simple).0,
                    (simple_auth a simple).1,
                  ))
            ])
      ]

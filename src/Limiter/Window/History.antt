-- ===== src/Limiter/Window/History.antt =====
-- The limiter answers as one that keeps every grant for ever and counts those of the last window:
-- neither the sweeps nor the pruning of a bucket show.
use nano_ldap.Prelude.{
  ℕ, ◌≤◌, ◌≡◌, refl, Bool, List, [], ◌∷◌, ◌++◌, arith, ltb, leb, if◌then◌else◌, none, some, length,
  Bool-cases, Option-cases, inl, inr, ◌∙◌, ap,
}
use nano_ldap.Text.{Bytes, beq}
use nano_ldap.Text.Case.{beq_iff}
use nano_ldap.Assoc.{Map, get, put, Distinct, get-put, put-Distinct, get-revise, revise-Distinct}
use nano_ldap.Limiter.Window.{WindowLimiter, recent, unless_empty, sweep, bucket, allow_bucket}

-- A grant: the key and the time.
abbrev pub Grants : Type 0
Grants = List (Bytes × ℕ)

abbrev pub times : Bytes → Grants → List ℕ
times k [] = []
times k ((j, t) ∷ h) = let rest = times k h in if beq j k then t ∷ rest else rest

-- The specification: a request is granted if fewer than `limit` grants of its key are recent.
abbrev pub granted : ℕ → ℕ → Grants → Bytes → ℕ → Bool
granted window limit h k now = ltb (length (recent window now (times k h))) limit

abbrev pub record_grant : Bool → Grants → Bytes → ℕ → Grants
record_grant b h k now = if b then h ++ (k, now) ∷ [] else h

pub times-append :
    (k j : Bytes) (t : ℕ) (h : Grants)
    → times k (h ++ (j, t) ∷ []) ≡ times k h ++ (if beq j k then t ∷ [] else [])
times-append k j t [] = ground arith
times-append k j t ((i, u) ∷ h) = ground (arith, times-append k j t h)

pub recent-append :
    (w now : ℕ) (xs ys : List ℕ) → recent w now (xs ++ ys) ≡ recent w now xs ++ recent w now ys
recent-append w now [] ys = refl
recent-append w now (x ∷ xs) ys = ground (arith, recent-append w now xs ys)

-- What has left the window does not come back.
pub recent-recent : (w a b : ℕ) (xs : List ℕ) → a ≤ b → recent w b (recent w a xs) ≡ recent w b xs
recent-recent w a b [] h = refl
recent-recent w a b (x ∷ xs) h = ground (arith, recent-recent w a b xs h)

bucket_unless_empty : (ts : List ℕ) → (elim (unless_empty ts) [ none ↦ [] | some us ↦ us ]) ≡ ts
bucket_unless_empty [] = refl
bucket_unless_empty (t ∷ ts) = refl

-- The buckets stand for the grants `h`, from time `last` on.
pub record Stands (window : ℕ) (m : Map (List ℕ)) (h : Grants) (last : ℕ) : Type 0 where
  pub distinct : Distinct m
  pub agrees :
      (k : Bytes) (now : ℕ)
      → last ≤ now
      → recent window now (bucket k m) ≡ recent window now (times k h)

bucket-sweep :
    (w : ℕ) (m : Map (List ℕ)) (k : Bytes) (now : ℕ)
    → Distinct m
    → bucket k (sweep w now m) ≡ recent w now (bucket k m)
unfolding sweep bucket
bucket-sweep w m k now d = elim (Option-cases (get k m)) [
  | inl q ↦ ground (arith, get-revise (λ j ts. unless_empty (recent w now ts)) k m d)
  | inr (ts, q) ↦ ground (
    arith,
    get-revise (λ j us. unless_empty (recent w now us)) k m d,
    bucket_unless_empty (recent w now ts),
  )
]

pub sweep-Stands :
    (w : ℕ) (m : Map (List ℕ)) (h : Grants) (last now : ℕ)
    → last ≤ now
    → Stands w m h last
    → Stands w (sweep w now m) h now
sweep-Stands w m h last now le s = record {
  distinct = unfold sweep in revise-Distinct _ m s.distinct;
  agrees = λ k now' later.
      ap (recent w now') (bucket-sweep w m k now s.distinct)
      ∙ recent-recent w now now' (bucket k m) later
      ∙ s.agrees k now' (omega arith);
}

pub Stands-later :
    (w : ℕ) (m : Map (List ℕ)) (h : Grants) (last now : ℕ)
    → last ≤ now
    → Stands w m h last
    → Stands w m h now
Stands-later w m h last now le s = record {
  distinct = s.distinct;
  agrees = λ k t later. s.agrees k t (omega arith);
}

bucket-put :
    (k j : Bytes) (ts : List ℕ) (m : Map (List ℕ))
    → bucket j (put k ts m) ≡ (if beq k j then ts else bucket j m)
unfolding bucket
bucket-put k j ts m = elim (Bool-cases (beq k j)) [
  | inl e ↦ ground (arith, get-put k j ts m)
  | inr e ↦ ground (arith, get-put k j ts m)
]

-- Storing the recent part of a bucket changes nothing that can be seen.
put-Stands :
    (w : ℕ) (m : Map (List ℕ)) (h : Grants) (now : ℕ) (k : Bytes)
    → Stands w m h now
    → Stands w (put k (recent w now (bucket k m)) m) h now
put-Stands w m h now k s = record {
  distinct = put-Distinct k _ m s.distinct;
  agrees = λ j t later. elim (Bool-cases (beq k j)) [
    | inl e ↦ ground (
      arith,
      bucket-put k j (recent w now (bucket k m)) m,
      beq_iff k j,
      recent-recent w now t (bucket k m) later,
      s.agrees j t later,
    )
    | inr e ↦ ground (arith, bucket-put k j (recent w now (bucket k m)) m, s.agrees j t later)
  ];
}

grant-Stands :
    (w : ℕ) (m : Map (List ℕ)) (h : Grants) (now : ℕ) (k : Bytes)
    → Stands w m h now
    → Stands w (put k (recent w now (bucket k m) ++ now ∷ []) m) (h ++ (k, now) ∷ []) now
grant-Stands w m h now k s = record {
  distinct = put-Distinct k _ m s.distinct;
  agrees = λ j t later.
      let stored : List ℕ = recent w now (bucket k m) ++ now ∷ [] in
      let later_times = ap (recent w t) (times-append j k now h) in
      elim (Bool-cases (beq k j)) [
        | inl e ↦ ground (
          arith,
          later_times,
          bucket-put k j stored m,
          beq_iff k j,
          recent-append w t (recent w now (bucket k m)) (now ∷ []),
          recent-append w t (times j h) (now ∷ []),
          recent-recent w now t (bucket k m) later,
          s.agrees j t later,
        )
        | inr e ↦ ground (
          arith,
          later_times,
          bucket-put k j stored m,
          recent-append w t (times j h) [],
          s.agrees j t later,
          mathlib.Core.List.append-nil (times j h),
        )
      ];
}

-- The window, the limit and the answer of a call, and the grants that the buckets stand for after it.
pub record Refines (w v : WindowLimiter) (h : Grants) (k : Bytes) (now : ℕ) (answer : Bool)
    : Type 0 where
  pub same_window : v.window ≡ w.window
  pub same_limit : v.limit ≡ w.limit
  pub same_answer : answer ≡ granted w.window w.limit h k now
  pub stands : Stands w.window v.entries (record_grant answer h k now) now

pub allow_bucket-Refines :
    (w : WindowLimiter) (h : Grants) (k : Bytes) (now : ℕ)
    → Stands w.window w.entries h now
    → let r = allow_bucket w k now (recent w.window now (bucket k w.entries)) in
      Refines w r.0 h k now r.1
unfolding allow_bucket
allow_bucket-Refines w h k now s =
    let ts : List ℕ = recent w.window now (bucket k w.entries) in
    let same = s.agrees k now (omega arith) in
    elim (Bool-cases (leb w.limit (length ts))) [
      | inl full ↦ rw full (record {
        same_window = refl;
        same_limit = refl;
        same_answer = ground arith;
        stands = put-Stands w.window w.entries h now k s;
      })
      | inr room ↦ rw room (record {
        same_window = refl;
        same_limit = refl;
        same_answer = ground arith;
        stands = grant-Stands w.window w.entries h now k s;
      })
    ]

-- ===== src/Verify/Freshest.antt =====
-- Which predicate is judged, and the exception that a malformed count lets out.
use houba.Common.{
  ℕ, ◌≤◌, String, ◌≡◌, refl, sym, ◌∙◌, ap, subst, ◌⊎◌, inl, inr, true, false, Option, none, some,
  List, [], ◌∷◌, arith, ltb, All, Option-cases, Bool-cases,
}
use houba.Common.Int.{ℤ, pos}
use houba.Common.Chars.{int_of, is_empty}
use houba.Common.Dict.{Dict, get}
use houba.Common.Eq.{string_eq}
use houba.Errors.{Result, ok, raise, value_error, ◌>>=◌}
use houba.Scan.Summary.{
  Severity, critical, high, medium, low, unknown, bucket, members, gate_breached,
}
use houba.Verify.{
  VerifiedPredicate, later_of, freshest_from, judge_found, judge, number_or_zero, add_finding,
  scan_outcome, breached_buckets,
}
use houba.Verify.Verdict.{freshest}

-- `p` is one of the predicates.
abbrev pub IsListed : VerifiedPredicate → List VerifiedPredicate → Type 0
IsListed p [] = ⊥
IsListed p (q ∷ preds) = (p ≡ q) ⊎ IsListed p preds

module _ (to_utc : String → Option ℕ) where
  -- The timestamp of `p` reads as an instant up to `bound`.
  pub record IsUpTo (bound : ℕ) (p : VerifiedPredicate) : Type 0 where
    pub instant : ℕ
    pub reads : to_utc p.attested_at ≡ some instant
    pub in_time : instant ≤ bound

  IsUpTo-weaken : (a b : ℕ) (p : VerifiedPredicate) → a ≤ b → IsUpTo a p → IsUpTo b p
  IsUpTo-weaken a b p le h = record { instant = h.instant; reads = h.reads; in_time = omega arith }

  freshest_from-none : (preds : List VerifiedPredicate) → freshest_from to_utc none preds ≡ none
  unfolding freshest_from
  freshest_from-none [] = refl
  freshest_from-none (p ∷ preds) = freshest_from-none preds

  -- What the loop keeps: `found` is the best so far or a later predicate, and is not outdone.
  record IsBest (best found : VerifiedPredicate × ℕ) (preds : List VerifiedPredicate) : Type 0 where
    later : best.1 ≤ found.1
    reads : to_utc found.0.attested_at ≡ some found.1
    from : (found ≡ best) ⊎ IsListed found.0 preds
    bound : All (IsUpTo found.1) preds

  later_of-cases :
      (best : VerifiedPredicate × ℕ) (p : VerifiedPredicate) (t : ℕ)
      → ((later_of best (p, t) ≡ (p, t)) × (best.1 ≤ t))
        ⊎ ((later_of best (p, t) ≡ best) × (t ≤ best.1))
  unfolding later_of
  later_of-cases best p t = elim (Bool-cases (ltb best.1 t)) [
    | inl newer ↦ inl (rw newer, ground arith)
    | inr older ↦ inr (rw older, ground arith)
  ]

  from_newer :
      (best found : VerifiedPredicate × ℕ) (p : VerifiedPredicate) (t : ℕ)
      (preds : List VerifiedPredicate)
      → (found ≡ (p, t)) ⊎ IsListed found.0 preds
      → (found ≡ best) ⊎ IsListed found.0 (p ∷ preds)
  from_newer best found p t preds (inl e) = inr (inl (ap (λ f. f.0) e))
  from_newer best found p t preds (inr l) = inr (inr l)

  from_older :
      (best found : VerifiedPredicate × ℕ) (p : VerifiedPredicate) (preds : List VerifiedPredicate)
      → (found ≡ best) ⊎ IsListed found.0 preds
      → (found ≡ best) ⊎ IsListed found.0 (p ∷ preds)
  from_older best found p preds (inl e) = inl e
  from_older best found p preds (inr l) = inr (inr l)

  IsBest-cons :
      (best found : VerifiedPredicate × ℕ) (p : VerifiedPredicate) (t : ℕ)
      (preds : List VerifiedPredicate)
      → to_utc p.attested_at ≡ some t
      → IsBest (later_of best (p, t)) found preds
      → IsBest best found (p ∷ preds)
  IsBest-cons best found p t preds e h = elim (later_of-cases best p t) [
    | inl (newer, le) ↦
        let k = rw newer at h in
        record {
          later = omega arith;
          reads = k.reads;
          from = from_newer best found p t preds k.from;
          bound = (record { instant = t; reads = e; in_time = k.later }, k.bound);
        }
    | inr (older, le) ↦
        let k = rw older at h in
        record {
          later = k.later;
          reads = k.reads;
          from = from_older best found p preds k.from;
          bound = (record { instant = t; reads = e; in_time = omega arith }, k.bound);
        }
  ]

  later_of-reads :
      (best : VerifiedPredicate × ℕ) (p : VerifiedPredicate) (t : ℕ)
      → to_utc best.0.attested_at ≡ some best.1
      → to_utc p.attested_at ≡ some t
      → to_utc (later_of best (p, t)).0.attested_at ≡ some (later_of best (p, t)).1
  later_of-reads best p t e good = elim (later_of-cases best p t) [
    | inl (newer, le) ↦ rw newer good
    | inr (older, le) ↦ rw older e
  ]

  freshest_from-IsBest :
      (best found : VerifiedPredicate × ℕ) (preds : List VerifiedPredicate)
      → to_utc best.0.attested_at ≡ some best.1
      → freshest_from to_utc (some best) preds ≡ some found
      → IsBest best found preds
  unfolding freshest_from
  freshest_from-IsBest best found [] e h =
      let same : best ≡ found = cc in
      subst (λ f. IsBest best f []) same
        (record { later = omega arith; reads = e; from = inl refl; bound = tt })
  freshest_from-IsBest best found (p ∷ preds) e h = elim (Option-cases (to_utc p.attested_at)) [
    | inl bad ↦ absurd (cc (rw bad at h, freshest_from-none preds))
    | inr (t, good) ↦ IsBest-cons best found p t preds good (
        freshest_from-IsBest (later_of best (p, t)) found preds (later_of-reads best p t e good)
          (rw good at h))
  ]

  -- The predicate that is judged is one of those given, its timestamp reads, and no timestamp
  -- among them is later or fails to read.
  pub freshest-latest :
      (preds : List VerifiedPredicate) (p : VerifiedPredicate) (t : ℕ)
      → freshest to_utc preds ≡ some (p, t)
      → (to_utc p.attested_at ≡ some t) × IsListed p preds × All (IsUpTo t) preds
  freshest-latest [] p t h = cc
  freshest-latest (q ∷ preds) p t h = elim (Option-cases (to_utc q.attested_at)) [
    | inl bad ↦ absurd (cc (rw bad at h, freshest_from-none preds))
    | inr (u, good) ↦
        let best = freshest_from-IsBest (q, u) (p, t) preds good (rw good at h) in
        (
          best.reads,
          first_or_later q u p t preds best.from,
          (record { instant = u; reads = good; in_time = best.later }, best.bound),
        )
  ]
    where
      first_or_later :
          (q : VerifiedPredicate) (u : ℕ) (p : VerifiedPredicate) (t : ℕ)
          (preds : List VerifiedPredicate)
          → (◌≡◌ {A = VerifiedPredicate × ℕ} (p, t) (q, u)) ⊎ IsListed p preds
          → IsListed p (q ∷ preds)
      first_or_later q u p t preds (inl e) = inl (ap (λ f. f.0) e)
      first_or_later q u p t preds (inr l) = inr l

-- A count that is neither empty nor an integer.
pub record IsMalformed (facts : Dict String String) (s : Severity) : Type 0 where
  pub raw : String
  pub present : get (bucket s) facts ≡ some raw
  pub nonempty : is_empty raw ≡ false
  pub no_integer : int_of raw ≡ none

number_or_zero-cases :
    (o : Option String)
    → ((n : ℤ) × (number_or_zero o ≡ ok n)) ⊎ (number_or_zero o ≡ raise value_error)
number_or_zero-cases none = inl (pos 0, refl)
number_or_zero-cases (some raw) = elim (Bool-cases (is_empty raw)) [
  | inl e ↦ inl (pos 0, ground arith)
  | inr e ↦ elim (Option-cases (int_of raw)) [
    | inl bad ↦ inr (ground arith)
    | inr (n, good) ↦ inl (n, ground arith)
  ]
]

abbrev Occurs : Severity → List Severity → Type 0
Occurs s [] = ⊥
Occurs s (x ∷ xs) = (s ≡ x) ⊎ Occurs s xs

module _ (facts : Dict String String) (fail_on s : Severity) (m : IsMalformed facts s) where
  malformed-raises : number_or_zero (get (bucket s) facts) ≡ raise value_error
  malformed-raises = ground arith

  breached_buckets-raises :
      (xs : List Severity) → Occurs s xs → breached_buckets facts fail_on xs ≡ raise value_error
  unfolding breached_buckets
  breached_buckets-raises [] o = absurd o
  breached_buckets-raises (x ∷ xs) (inl same) =
      ap (λ r. r >>= rest_of x xs)
        (ap (λ y. number_or_zero (get (bucket y) facts)) (sym same) ∙ malformed-raises)
    where
      rest_of : Severity → List Severity → ℤ → Result (List (Severity × ℤ))
      rest_of x xs n =
          breached_buckets facts fail_on xs >>= λ more. ok (add_finding fail_on x n more)
  breached_buckets-raises (x ∷ xs) (inr later) =
      elim (number_or_zero-cases (get (bucket x) facts)) [
        | inl (n, e) ↦ rw (e, ◌>>=◌, breached_buckets-raises xs later)
        | inr e ↦ rw e
      ]

  judge-raises :
      (max_age : ℤ) (now : ℕ) (found : VerifiedPredicate × ℕ)
      → found.0.summary ≡ facts
      → gate_breached facts fail_on ≡ true
      → judge fail_on max_age now found ≡ raise value_error
  unfolding judge
  judge-raises max_age now (p, t) e g = rw (e, g, breached_buckets-raises members (every s))
    where
      every : (x : Severity) → Occurs x members
      every critical = inl refl
      every high = inr (inl refl)
      every medium = inr (inr (inl refl))
      every low = inr (inr (inr (inl refl)))
      every unknown = inr (inr (inr (inr (inl refl))))

-- When the freshest attestation breaches the gate and any of its counts is malformed, a
-- `ValueError` escapes instead of the failed outcome: the gate reads a malformed count as 0, and
-- the list of findings reads it again with `int`.
pub scan_outcome-raises :
    (to_utc : String → Option ℕ) (preds : List VerifiedPredicate) (max_severity s : Severity)
    (max_age : ℤ) (now : ℕ) (p : VerifiedPredicate) (t : ℕ)
    → freshest to_utc preds ≡ some (p, t)
    → gate_breached p.summary max_severity ≡ true
    → IsMalformed p.summary s
    → scan_outcome to_utc preds max_severity max_age now ≡ raise value_error
unfolding scan_outcome
scan_outcome-raises to_utc [] max_severity s max_age now p t h g m = cc
scan_outcome-raises to_utc (q ∷ preds) max_severity s max_age now p t h g m =
    ap (judge_found max_severity max_age now) h
    ∙ judge-raises p.summary max_severity s m max_age now (p, t) refl g

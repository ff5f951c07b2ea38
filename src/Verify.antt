-- ===== src/Verify.antt =====
-- knock/domain/verify.py: the verdict of `knock verify`. Reading an ISO timestamp
-- (`datetime.fromisoformat`) is a parameter, `none` for its `ValueError`; the texts of the details
-- are kept as the facts that they show.
pub mod Verdict
pub mod Freshest
use houba.Common.{
  ℕ, String, Bool, true, false, not, ◌&&◌, ◌||◌, Option, none, some, List, [], ◌∷◌, ltb, all,
  if◌then◌else◌,
}
use houba.Common.Int.{ℤ, pos, sub_ℕ, ltb_ℤ}
use houba.Common.Dict.{Dict, get}
use houba.Common.Eq.{string_eq}
use houba.Common.Chars.{int_of, is_empty}
use houba.Errors.{Result, ok, raise, value_error, ◌>>=◌}
use houba.Scan.Summary.{Severity, members, bucket, at_or_above, gate_breached}

pub data Requirement : Type 0 where
  stamp scan_pass sbom : Requirement

-- `VerifiedPredicate` of ports/attestor.py
pub record VerifiedPredicate : Type 0 where
  pub summary : Dict String String
  pub attested_at : String

-- The facts that the text of a detail shows.
pub data Detail : Type 0 where
  stamp_present stamp_missing sbom_present sbom_missing no_attestation unparseable : Detail
  findings : List (Severity × ℤ) → Severity → Detail
  too_old : ℤ → ℤ → Detail
  fresh : Severity → ℤ → Detail

pub record RequirementOutcome : Type 0 where
  pub requirement : Requirement
  pub passed : Bool
  pub detail : Detail

-- `VerifyReport.passed`
unfoldable pub report_passed : List RequirementOutcome → Bool
report_passed outcomes = all (λ o. o.passed) outcomes

unfoldable pub stamp_outcome : Bool → RequirementOutcome
stamp_outcome present = record {
  requirement = stamp;
  passed = present;
  detail = if present then stamp_present else stamp_missing;
}

unfoldable pub sbom_outcome : Bool → RequirementOutcome
sbom_outcome present = record {
  requirement = sbom;
  passed = present;
  detail = if present then sbom_present else sbom_missing;
}

abbrev pub scan_failed : Detail → RequirementOutcome
scan_failed detail = record { requirement = scan_pass; passed = false; detail = detail }

-- `int(facts.get(f"vuln.{s.value}", "0") or "0")`, which may raise.
abbrev pub number_or_zero : Option String → Result ℤ
number_or_zero none = ok (pos 0)
number_or_zero (some raw) =
    if is_empty raw
    then ok (pos 0)
    else elim (int_of raw) [ none ↦ raise value_error | some n ↦ ok n ]

abbrev pub is_at_or_above : Severity → Severity → Bool
is_at_or_above s fail_on = gate_breached ((bucket s, "1") ∷ []) fail_on

-- The comprehension `breached`: each bucket is read in turn, and kept if it is positive and its
-- severity breaches the gate on its own.
abbrev pub add_finding : Severity → Severity → ℤ → List (Severity × ℤ) → List (Severity × ℤ)
add_finding fail_on s n rest =
    if ltb_ℤ (pos 0) n && is_at_or_above s fail_on then (s, n) ∷ rest else rest

unfoldable pub breached_buckets :
    Dict String String → Severity → List Severity → Result (List (Severity × ℤ))
unfolding get
breached_buckets facts fail_on [] = ok []
breached_buckets facts fail_on (s ∷ rest) = do
  n ← number_or_zero (get (bucket s) facts)
  more ← breached_buckets facts fail_on rest
  ok (add_finding fail_on s n more)

pub record Facts : Type 0 where
  pub stamp_found : Bool
  pub sbom_found : Bool
  pub scan_predicates : List VerifiedPredicate

-- A set of requirements, as the test for each.
pub record Requirements : Type 0 where
  pub wants_stamp : Bool
  pub wants_scan : Bool
  pub wants_sbom : Bool

-- `max(preds, key=...)` keeps the first of two that are equally late.
unfoldable pub later_of : VerifiedPredicate × ℕ → VerifiedPredicate × ℕ → VerifiedPredicate × ℕ
later_of best next = if ltb best.1 next.1 then next else best

abbrev pub keyed : VerifiedPredicate → Option ℕ → Option (VerifiedPredicate × ℕ)
keyed p none = none
keyed p (some t) = some (p, t)

abbrev pub latest_with :
    Option (VerifiedPredicate × ℕ) → Option (VerifiedPredicate × ℕ) → Option (VerifiedPredicate × ℕ)
latest_with none next = none
latest_with (some best) none = none
latest_with (some best) (some next) = some (later_of best next)

-- The rest of `_scan_outcome`, once the freshest predicate and its instant are known.
unfoldable pub judge : Severity → ℤ → ℕ → VerifiedPredicate × ℕ → Result RequirementOutcome
judge max_severity max_age now (freshest, attested) =
    let age = sub_ℕ now attested in
    if gate_breached freshest.summary max_severity
    then (do
      breached ← breached_buckets freshest.summary max_severity members
      ok (scan_failed (findings breached max_severity)))
    else if ltb_ℤ max_age age
    then ok (scan_failed (too_old age max_age))
    else ok (record { requirement = scan_pass; passed = true; detail = fresh max_severity age })

abbrev pub judge_found :
    Severity → ℤ → ℕ → Option (VerifiedPredicate × ℕ) → Result RequirementOutcome
judge_found max_severity max_age now none = ok (scan_failed unparseable)
judge_found max_severity max_age now (some found) = judge max_severity max_age now found

abbrev pub when_wanted :
    Bool → RequirementOutcome → List RequirementOutcome → List RequirementOutcome
when_wanted true o rest = o ∷ rest
when_wanted false o rest = rest

module _ (to_utc : String → Option ℕ) where
  -- `max(preds, key=...)`: every key is read, and one that cannot be read raises.
  unfoldable pub freshest_from :
      Option (VerifiedPredicate × ℕ) → List VerifiedPredicate → Option (VerifiedPredicate × ℕ)
  freshest_from best [] = best
  freshest_from best (p ∷ preds) =
      freshest_from (latest_with best (keyed p (to_utc p.attested_at))) preds

  -- `_scan_outcome`
  unfoldable pub scan_outcome :
      List VerifiedPredicate → Severity → ℤ → ℕ → Result RequirementOutcome
  unfolding freshest_from
  scan_outcome [] max_severity max_age now = ok (scan_failed no_attestation)
  scan_outcome (p ∷ preds) max_severity max_age now =
      judge_found max_severity max_age now (freshest_from (keyed p (to_utc p.attested_at)) preds)

  unfoldable pub evaluate :
      Requirements → Facts → Severity → ℤ → ℕ → Result (List RequirementOutcome)
  unfolding stamp_outcome sbom_outcome
  evaluate wanted facts max_severity max_age now =
      let after = when_wanted wanted.wants_sbom (sbom_outcome facts.sbom_found) [] in
      let first = when_wanted wanted.wants_stamp (stamp_outcome facts.stamp_found) in
      if wanted.wants_scan
      then (do
        scanned ← scan_outcome facts.scan_predicates max_severity max_age now
        ok (first (scanned ∷ after)))
      else ok (first after)

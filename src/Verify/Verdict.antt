-- ===== src/Verify/Verdict.antt =====
-- When `knock verify` passes, and which timestamp it trusts.
use houba.Common.{
  ℕ, String, ◌≡◌, refl, Bool, false, not, ◌&&◌, ◌||◌, Option, none, some, List, [], ◌∷◌, arith,
}
use houba.Common.Int.{ℤ, sub_ℕ, ltb_ℤ}
use houba.Common.Eq.{string_eq}
use houba.Errors.{Result, ok, raise}
use houba.Scan.Summary.{Severity, gate_breached}
use houba.Verify.{
  VerifiedPredicate, RequirementOutcome, Facts, Requirements, report_passed, keyed, freshest_from,
  judge, judge_found, scan_outcome, evaluate,
}

abbrev pub passes : Result (List RequirementOutcome) → Bool
passes (ok outcomes) = report_passed outcomes
passes (raise exc) = false

module _ (to_utc : String → Option ℕ) where
  -- The freshest predicate has no finding at or above the threshold and is not too old.
  abbrev pub is_clean : Severity → ℤ → ℕ → Option (VerifiedPredicate × ℕ) → Bool
  is_clean max_severity max_age now none = false
  is_clean max_severity max_age now (some (p, attested)) =
      not (gate_breached p.summary max_severity) && not (ltb_ℤ max_age (sub_ℕ now attested))

  abbrev pub freshest : List VerifiedPredicate → Option (VerifiedPredicate × ℕ)
  freshest [] = none
  freshest (p ∷ preds) = freshest_from to_utc (keyed p (to_utc p.attested_at)) preds

  abbrev outcome_passed : Result RequirementOutcome → Bool
  outcome_passed (ok o) = o.passed
  outcome_passed (raise exc) = false

  judge_found-is_clean :
      (max_severity : Severity) (max_age : ℤ) (now : ℕ) (found : Option (VerifiedPredicate × ℕ))
      → outcome_passed (judge_found max_severity max_age now found)
        ≡ is_clean max_severity max_age now found
  unfolding judge
  judge_found-is_clean max_severity max_age now none = refl
  judge_found-is_clean max_severity max_age now (some (p, t)) = ground arith

  scan_outcome-is_clean :
      (preds : List VerifiedPredicate) (max_severity : Severity) (max_age : ℤ) (now : ℕ)
      → outcome_passed (scan_outcome to_utc preds max_severity max_age now)
        ≡ is_clean max_severity max_age now (freshest preds)
  unfolding scan_outcome
  scan_outcome-is_clean [] max_severity max_age now = refl
  scan_outcome-is_clean (p ∷ preds) max_severity max_age now =
      judge_found-is_clean max_severity max_age now (freshest (p ∷ preds))

  -- The verdict passes exactly when every wanted requirement is met: a stamp, an SBOM, and a
  -- freshest scan attestation that is clean and young enough. An exception is no pass.
  pub evaluate-passes :
      (wanted : Requirements) (facts : Facts) (max_severity : Severity) (max_age : ℤ) (now : ℕ)
      → passes (evaluate to_utc wanted facts max_severity max_age now) ≡ (
          (not wanted.wants_stamp || facts.stamp_found)
          && (not wanted.wants_scan
              || is_clean max_severity max_age now (freshest facts.scan_predicates))
          && (not wanted.wants_sbom || facts.sbom_found))
  unfolding evaluate report_passed
  evaluate-passes wanted facts max_severity max_age now =
      ground (arith, scan_outcome-is_clean facts.scan_predicates max_severity max_age now)

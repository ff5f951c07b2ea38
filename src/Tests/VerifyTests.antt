-- ===== src/Tests/VerifyTests.antt =====
-- Runs of knock/domain/verify.py, knock/domain/scan/summary.py and knock/domain/lifecycle.py.
use houba.Common.{ℕ, suc, String, Option, ◌≡◌, refl, true, false, none, some, [], ◌∷◌, All}
use houba.Common.Int.{pos}
use houba.Common.Dict.{Dict, get}
use houba.Errors.{raise, value_error}
use houba.Scan.Summary.{count, high, low, medium, gate_breached, has_findings}
use houba.Scan.Summary.Gate.{gate_breached_iff}
use houba.Verify.{
  later_of, freshest_from, VerifiedPredicate, Requirements, Facts, evaluate, scan_outcome,
}
use houba.Verify.Verdict.{passes, evaluate-passes}
use houba.Verify.Freshest.{IsListed, IsUpTo, freshest-latest, scan_outcome-raises}
use houba.IsoTime.Unary.{strokes}
use houba.Lifecycle.{MarkIdentity, parse_pending_mark, build_pending_deletion_annotations}
use houba.Lifecycle.RoundTrip.{parse_pending_mark-build}

abbrev found_high : Dict String String
found_high = ("vuln.critical", "0") ∷ ("vuln.high", " 3 ") ∷ ("vuln.low", "many") ∷ []

gate_breached_iff_example : gate_breached found_high medium ≡ true
unfolding has_findings
gate_breached_iff_example = gate_breached_iff found_high medium

abbrev size : String → ℕ
size String.[] = 0
size (String.◌∷◌ c s) = suc (size s)

-- A timestamp as so many strokes; the empty text is none.
abbrev to_utc : String → Option ℕ
to_utc String.[] = none
to_utc (String.◌∷◌ c s) = some (suc (size s))

abbrev old_scan : VerifiedPredicate
old_scan = record { summary = found_high; attested_at = "|" }

abbrev new_scan : VerifiedPredicate
new_scan = record { summary = ("vuln.low", "2") ∷ []; attested_at = "|||" }

abbrev attested : Facts
attested = record {
  stamp_found = true;
  sbom_found = false;
  scan_predicates = old_scan ∷ new_scan ∷ [];
}

abbrev wanted : Requirements
wanted = record { wants_stamp = true; wants_scan = true; wants_sbom = false }

evaluate-passes_example : passes (evaluate to_utc wanted attested high (pos 5) 4) ≡ true
unfolding gate_breached freshest_from has_findings later_of count get
evaluate-passes_example = evaluate-passes to_utc wanted attested high (pos 5) 4

freshest-latest_example :
    (to_utc "|||" ≡ some 3)
    × IsListed new_scan (old_scan ∷ new_scan ∷ [])
    × All (IsUpTo to_utc 3) (old_scan ∷ new_scan ∷ [])
unfolding freshest_from later_of
freshest-latest_example = freshest-latest to_utc (old_scan ∷ new_scan ∷ []) new_scan 3 refl

scan_outcome-raises_example : scan_outcome to_utc (old_scan ∷ []) high (pos 5) 4 ≡ raise value_error
unfolding gate_breached freshest_from has_findings later_of count get
scan_outcome-raises_example =
    scan_outcome-raises to_utc (old_scan ∷ []) high low (pos 5) 4 old_scan 1 refl refl
      (record { raw = "many"; present = refl; nonempty = refl; no_integer = refl })

abbrev identity : MarkIdentity
identity = record { policy = "nginx"; import_name = "stable"; variant = "hardened" }

parse_pending_mark-build_example :
    parse_pending_mark strokes "io.knock" "r/nginx:1.0"
      (build_pending_deletion_annotations strokes "io.knock" 3 "retention-excess" identity)
    ≡ record {
      image_ref = "r/nginx:1.0";
      identity = identity;
      marked_at = some 3;
      reason = "retention-excess";
    }
parse_pending_mark-build_example =
    parse_pending_mark-build strokes "io.knock" "r/nginx:1.0" "retention-excess" 3 identity

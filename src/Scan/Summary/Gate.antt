-- ===== src/Scan/Summary/Gate.antt =====
-- What the gate looks at.
use houba.Common.{◌≤◌, String, ◌≡◌, Bool, true, ◌&&◌, arith, leb, any}
use houba.Common.Dict.{Dict}
use houba.Scan.Summary.{
  Severity, critical, low, unknown, members, index, has_findings, gate_breached,
}

-- The rule by rank: at `fail_on` or above, and `unknown` from the threshold `low` on.
abbrev pub counts_at : Severity → Severity → Bool
counts_at fail_on unknown = leb (index low) (index fail_on)
counts_at fail_on s = leb (index s) (index fail_on)

-- The gate is breached exactly when some severity that counts at the threshold has findings.
pub gate_breached_iff :
    (facts : Dict String String) (fail_on : Severity)
    → gate_breached facts fail_on ≡ any (λ s. counts_at fail_on s && has_findings facts s) members
unfolding gate_breached
gate_breached_iff facts critical = ground arith
gate_breached_iff facts _ = ground arith

-- A more permissive threshold never lets through what a stricter one stops.
pub gate_breached_mono :
    (facts : Dict String String) (strict loose : Severity)
    → index strict ≤ index loose
    → gate_breached facts strict ≡ true
    → gate_breached facts loose ≡ true
gate_breached_mono facts critical loose le h =
    ground (arith, gate_breached_iff facts critical, gate_breached_iff facts loose)
gate_breached_mono facts strict loose le h =
    ground (arith, gate_breached_iff facts strict, gate_breached_iff facts loose)

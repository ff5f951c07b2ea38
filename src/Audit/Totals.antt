-- ===== src/Audit/Totals.antt =====
-- The counts of an audit and its exit code.
use houba.Common.{
  ◌↔◌, ℕ, ◌+◌, ◌≤◌, ◌≡◌, refl, Bool, true, none, some, List, [], ◌∷◌, count_if, length, is_some,
  arith, Bool-cases, Option-cases, All, inl, inr,
}
use houba.Errors.{exit_code_for}
use houba.Errors.Codes.{exit_code_for-bounds}
use houba.Config.{RegistryConfig}
use houba.Audit.{
  CoverageOutcome, CoverageCounts, coverage_counts, error_codes, exit_of, audit_exit_code,
  report_on,
}

-- Every image that is scanned is counted once: as covered, as uncovered or as not readable.
pub coverage_counts-partition :
    (outcomes : List CoverageOutcome)
    → (coverage_counts outcomes).covered
        + (coverage_counts outcomes).uncovered
        + (coverage_counts outcomes).errored
      ≡ (coverage_counts outcomes).scanned
unfolding coverage_counts
coverage_counts-partition [] = refl
coverage_counts-partition (o ∷ outcomes) = ground (arith, coverage_counts-partition outcomes)

-- The error of an outcome carries the exit code of its class.
abbrev pub IsCodedOutcome : CoverageOutcome → Type 0
IsCodedOutcome o = elim o.error [ none ↦ Unit | some e ↦ e.exit_code ≡ exit_code_for e.type ]

length-error_codes :
    (outcomes : List CoverageOutcome)
    → length (error_codes outcomes) ≡ count_if (λ o. is_some o.error) outcomes
length-error_codes [] = refl
length-error_codes (o ∷ outcomes) = elim (Option-cases o.error) [
  | inl e ↦ rw e (omega (arith, length-error_codes outcomes))
  | inr (info, e) ↦ rw e (omega (arith, length-error_codes outcomes))
]

error_codes-positive :
    (outcomes : List CoverageOutcome)
    → All IsCodedOutcome outcomes
    → All (λ c. 1 ≤ c) (error_codes outcomes)
error_codes-positive [] c = tt
error_codes-positive (o ∷ outcomes) c = elim (Option-cases o.error) [
  | inl e ↦ rw e (error_codes-positive outcomes c.1)
  | inr (info, e) ↦
      let coded : info.exit_code ≡ exit_code_for info.type = rw e at c.0 in
      rw e (
        omega (arith, coded, (exit_code_for-bounds info.type).0),
        error_codes-positive outcomes c.1,
      )
]

exit_of-zero :
    (codes : List ℕ) (counts : CoverageCounts) (on_uncovered on_unsigned : Bool)
    → length codes ≡ counts.errored
    → All (λ c. 1 ≤ c) codes
    → (exit_of codes counts on_uncovered on_unsigned ≡ 0) ↔ (
        (counts.errored ≡ 0)
        × (on_uncovered ≡ true → counts.uncovered ≡ 0)
        × (on_unsigned ≡ true → counts.unsigned ≡ 0))
exit_of-zero [] counts u s n c = (
  λ h. (omega (arith, n), λ e. ground arith, λ e. ground arith),
  λ (z, f, g). elim (Bool-cases u) [
    | inl e ↦ elim (Bool-cases s) [ inl k ↦ ground (arith, f e, g k) | inr k ↦ ground (arith, f e) ]
    | inr e ↦ elim (Bool-cases s) [ inl k ↦ ground (arith, g k) | inr k ↦ ground arith ]
  ],
)
exit_of-zero (code ∷ codes) counts u s n c =
    (λ h. absurd (omega (arith, h, c.0)), λ (z, f, g). absurd (omega (arith, z, n)))

-- An audit whose errors carry the codes of their classes exits with 0 exactly when every image
-- was readable and neither gate that was asked for has an image that it stops.
pub audit_exit_code_zero :
    (targets : List RegistryConfig) (outcomes : List CoverageOutcome)
    (on_uncovered on_unsigned : Bool)
    → All IsCodedOutcome outcomes
    → (audit_exit_code (report_on targets outcomes) on_uncovered on_unsigned ≡ 0) ↔ (
        ((coverage_counts outcomes).errored ≡ 0)
        × (on_uncovered ≡ true → (coverage_counts outcomes).uncovered ≡ 0)
        × (on_unsigned ≡ true → (coverage_counts outcomes).unsigned ≡ 0))
unfolding audit_exit_code coverage_counts
audit_exit_code_zero targets outcomes on_uncovered on_unsigned c =
    exit_of-zero (error_codes outcomes) (coverage_counts outcomes) on_uncovered on_unsigned
      (length-error_codes outcomes) (error_codes-positive outcomes c)

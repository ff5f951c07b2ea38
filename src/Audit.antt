-- ===== src/Audit.antt =====
-- knock/use_cases/audit.py: which images carry the stamp. The walk is a generator that
-- `itertools.islice` stops after `limit` images: no call is made once they are read.
pub mod Totals
pub mod Limit
use houba.Common.{
  ℕ, zero, suc, ◌-◌, ltb, String, Bool, true, false, not, ◌&&◌, ◌||◌, Option, none, some, List, [],
  ◌∷◌, ◌++◌, count_if, length, max, is_none, is_some, if◌then◌else◌,
}
use houba.Common.Chars.{is_empty}
use houba.Common.Dict.{Dict, get}
use houba.Common.Eq.{string_eq}
use houba.Common.Keys.{◌⊕◌}
use houba.Errors.{ErrorClass, ErrorInfo, error_of, Result}
use houba.Config.{RegistryConfig, Roster}
use houba.Scan.Refs.{is_referrers_fallback_tag}
use houba.Stamp.{is_stamped}
use houba.Session.{
  listed_tags, listed_referrers, read_annotations, Ports, Io, pure, lift, perform, try_except,
  ◌>>=◌, for_each_with, ensure_registry_session, walk_repo_refs, targets_of,
}

pub record CoverageOutcome : Type 0 where
  pub image_ref : String
  pub digest : Option String
  pub covered : Bool
  pub signed : Option Bool
  pub sbom : Option Bool
  pub policy : Option String
  pub error : Option ErrorInfo

pub record CoverageCounts : Type 0 where
  pub scanned : ℕ
  pub covered : ℕ
  pub uncovered : ℕ
  pub signed : ℕ
  pub unsigned : ℕ
  pub with_sbom : ℕ
  pub without_sbom : ℕ
  pub errored : ℕ

pub record CoverageReport : Type 0 where
  pub registries : List String
  pub counts : CoverageCounts
  pub outcomes : List CoverageOutcome

abbrev pub error_codes : List CoverageOutcome → List ℕ
error_codes [] = []
error_codes (o ∷ outcomes) = elim o.error [
  | none ↦ error_codes outcomes
  | some e ↦ e.exit_code ∷ error_codes outcomes
]

abbrev pub worst_of : List ℕ → ℕ
worst_of [] = 0
worst_of (code ∷ codes) = max code (worst_of codes)

abbrev gate_code : Bool → ℕ → ℕ → ℕ
gate_code gated count otherwise = if gated && ltb 0 count then 1 else otherwise

abbrev pub exit_of : List ℕ → CoverageCounts → Bool → Bool → ℕ
exit_of (code ∷ codes) counts fail_on_uncovered fail_on_unsigned = worst_of (code ∷ codes)
exit_of [] counts fail_on_uncovered fail_on_unsigned =
    gate_code fail_on_uncovered counts.uncovered (gate_code fail_on_unsigned counts.unsigned 0)

unfoldable pub audit_exit_code : CoverageReport → Bool → Bool → ℕ
audit_exit_code report fail_on_uncovered fail_on_unsigned =
    exit_of (error_codes report.outcomes) report.counts fail_on_uncovered fail_on_unsigned

abbrev pub unreadable : String → ErrorClass → CoverageOutcome
unreadable image_ref exc = record {
  image_ref = image_ref;
  digest = none;
  covered = false;
  signed = none;
  sbom = none;
  policy = none;
  error = some (error_of exc);
}

abbrev pub policy_of : String → Bool → Dict String String → Option String
policy_of label_prefix covered annotations =
    if covered && not (is_empty label_prefix)
    then get (label_prefix ⊕ ".policy") annotations
    else none

abbrev pub is_nonempty {ℓ} : {A : Type ℓ} → List A → Bool
is_nonempty [] = false
is_nonempty (x ∷ xs) = true

-- `FORMAT_MEDIA_TYPES.values()`
abbrev pub media_types : List String
media_types = "application/spdx+json" ∷ "application/vnd.cyclonedx+json" ∷ []

abbrev pub cosign_attestation_artifact_type : String
cosign_attestation_artifact_type = "application/vnd.dev.sigstore.bundle.v0.3+json"

-- What is left of the limit; `none` is no limit.
abbrev pub is_spent : Option ℕ → Bool
is_spent none = false
is_spent (some zero) = true
is_spent (some (suc n)) = false

abbrev pub spend : Option ℕ → Option ℕ
spend none = none
spend (some n) = some (n - 1)

module _ (ports : Ports) where
  -- `bool(registry.list_referrers(image_ref, artifact_type))`
  unfoldable pub has_referrer : String → String → Io Bool
  has_referrer image_ref artifact_type = do
    referrers ←
        perform (listed_referrers image_ref artifact_type)
          (λ h. ports.list_referrers h image_ref artifact_type)
    pure (is_nonempty referrers)

  -- `any(...)` over the media types: it stops at the first that has a referrer.
  unfoldable pub has_any_referrer : String → List String → Io Bool
  has_any_referrer image_ref [] = pure false
  has_any_referrer image_ref (media_type ∷ rest) = do
    found ← has_referrer image_ref media_type
    if found then pure true else has_any_referrer image_ref rest

  abbrev pub probe_if : Bool → Io Bool → Io (Option Bool)
  probe_if true probe = probe >>= λ found. pure (some found)
  probe_if false probe = pure none

  module _ (label_prefix : String) (check_signed check_sbom : Bool) where
    abbrev pub probe : String → String × Dict String String → Io CoverageOutcome
    probe image_ref (digest, annotations) =
        let covered = is_stamped annotations label_prefix in
        do
          signed ←
              probe_if (check_signed && covered)
                (has_referrer image_ref cosign_attestation_artifact_type)
          sbom ← probe_if (check_sbom && covered) (has_any_referrer image_ref media_types)
          pure (record {
            image_ref = image_ref;
            digest = some digest;
            covered = covered;
            signed = signed;
            sbom = sbom;
            policy = policy_of label_prefix covered annotations;
            error = none;
          })

    -- `_classify`
    unfoldable pub classify_image : String → Io CoverageOutcome
    classify_image image_ref =
        try_except
          (perform (read_annotations image_ref) (λ h. ports.get_annotations h image_ref)
            >>= probe image_ref)
          (unreadable image_ref)

    -- The generator, image by image: once the limit is spent, its loops make no further call.
    unfoldable pub audit_tag : String → String → Option ℕ → Io (List CoverageOutcome × Option ℕ)
    audit_tag repo_ref tag left =
        if is_spent left || is_referrers_fallback_tag tag
        then pure ([], left)
        else (do outcome ← classify_image (repo_ref ⊕ (":" ⊕ tag)); pure (outcome ∷ [], spend left))

    unfoldable pub audit_repo : String → Option ℕ → Io (List CoverageOutcome × Option ℕ)
    audit_repo repo_ref left = if is_spent left then pure ([], left) else (do
      tags ← perform (listed_tags repo_ref) (λ h. ports.list_tags h repo_ref)
      for_each_with (audit_tag repo_ref) tags left)

    unfoldable pub audit_registry :
        RegistryConfig
        → List String × Option ℕ
        → Io (List CoverageOutcome × (List String × Option ℕ))
    audit_registry cfg (logged_in, left) =
        if is_spent left then pure ([], (logged_in, left)) else (do
          now_in ← ensure_registry_session ports cfg logged_in
          repo_refs ← walk_repo_refs ports cfg
          (outcomes, left_over) ← for_each_with audit_repo repo_refs left
          pure (outcomes, (now_in, left_over)))

abbrev pub hosts_of : List RegistryConfig → List String
hosts_of [] = []
hosts_of (cfg ∷ targets) = cfg.host ∷ hosts_of targets

abbrev is_true : Option Bool → Bool
is_true (some true) = true
is_true _ = false

abbrev is_false : Option Bool → Bool
is_false (some false) = true
is_false _ = false

unfoldable pub coverage_counts : List CoverageOutcome → CoverageCounts
coverage_counts outcomes = record {
  scanned = length outcomes;
  covered = count_if (λ o. is_none o.error && o.covered) outcomes;
  uncovered = count_if (λ o. is_none o.error && not o.covered) outcomes;
  signed = count_if (λ o. is_true o.signed) outcomes;
  unsigned = count_if (λ o. is_false o.signed) outcomes;
  with_sbom = count_if (λ o. is_true o.sbom) outcomes;
  without_sbom = count_if (λ o. is_false o.sbom) outcomes;
  errored = count_if (λ o. is_some o.error) outcomes;
}

abbrev pub report_on : List RegistryConfig → List CoverageOutcome → CoverageReport
report_on targets outcomes = record {
  registries = hosts_of targets;
  counts = coverage_counts outcomes;
  outcomes = outcomes;
}

-- A negative `limit`, a `ValueError` of `islice`, is no value of this type.
unfoldable pub audit_coverage :
    Ports → String → Bool → Bool → Roster → Option String → Option ℕ → Io CoverageReport
audit_coverage ports label_prefix check_signed check_sbom roster only_registry limit = do
  targets ← lift (targets_of only_registry roster)
  (outcomes, rest) ←
      for_each_with (audit_registry ports label_prefix check_signed check_sbom) targets ([], limit)
  pure (report_on targets outcomes)

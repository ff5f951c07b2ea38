-- ===== src/Tests/ReconcileTests.antt =====
-- Runs of knock/domain/reconcile.py.
use houba.Common.{◌*◌, ℕ, String, ◌≡◌, refl, true, false, not, ◌&&◌, none, some, [], ◌∷◌, all, any}
use houba.Common.Int.{ℤ, pos}
use houba.Common.Eq.{elem, add_all, string_eq}
use houba.Common.Dict.{Dict, has}
use houba.Errors.{ok, raise, key_error, is_ok}
use houba.Expand.{VariantPlan, ExpandedImport}
use houba.Retention.{select_retention_excess}
use houba.Reconcile.{
  SourceArtifact, MirrorArtifact, empty_buckets, VariantReconcile, reconcile_variant,
}
use houba.Reconcile.Variants.{IsPlaced, reconcile_variant-IsPlaced, reconcile_variant_total}
use houba.Reconcile.Import.{
  ImportReconcile, MirrorState, desired_names, variant_excess, retention_excess, reconcile_import,
  kept_times, excess_under, alias_targets,
}
use houba.Reconcile.Deletion.{is_output, to_delete_exact}
use houba.Reconcile.Retained.{retains, to_mark_retention_exact}
use houba.Reconcile.Marks.{marks_after, marks_converge}

abbrev day : ℕ
day = 86_400_000_000

abbrev week : ℤ
week = pos 604_800_000_000

abbrev upstream : Dict String SourceArtifact
upstream =
    ("1.0", record { digest = "sha256:aa"; pushed_at = 1; revision = none })
    ∷ ("1.1", record { digest = "sha256:bb"; pushed_at = 1; revision = none })
    ∷ ("1.2", record { digest = "sha256:cc"; pushed_at = 1; revision = none })
    ∷ []

abbrev mirrored : Dict String MirrorArtifact
mirrored =
    (
      "1.0-eu",
      record {
        base_digest = "sha256:aa";
        transform_version = none;
        imported_at = some 2;
        attested = true;
        sbom_covered = true;
      },
    )
    ∷ (
      "1.1-eu",
      record {
        base_digest = "sha256:b0";
        transform_version = none;
        imported_at = some 3;
        attested = true;
        sbom_covered = false;
      },
    )
    ∷ (
      "0.9-eu",
      record {
        base_digest = "sha256:99";
        transform_version = none;
        imported_at = some 1;
        attested = true;
        sbom_covered = true;
      },
    )
    ∷ []

abbrev plan : VariantPlan
plan = record {
  name = "eu";
  suffix = "-eu";
  transform = [];
  tags = "1.0" ∷ "1.1" ∷ "1.2" ∷ [];
  aliases = ("latest", "1.2") ∷ [];
}

abbrev small : VariantPlan
small = record { name = "eu"; suffix = "-eu"; transform = []; tags = "1.0" ∷ []; aliases = [] }

abbrev after_a_month : ℕ
after_a_month = 40 * day

abbrev planned : VariantReconcile
planned = record {
  variant = "eu";
  buckets = record {
    to_import = "1.2-eu" ∷ [];
    to_update = "1.1-eu" ∷ [];
    to_sign = [];
    to_sbom = [];
  };
  aliases = ("latest-eu", "1.2-eu") ∷ [];
}

variant_runs : reconcile_variant plan upstream mirrored after_a_month week none ≡ ok planned
unfolding reconcile_variant
variant_runs = refl

-- Within the grace period the moved digest is kept, and its SBOM is backfilled.
variant_waits :
    reconcile_variant plan upstream mirrored day week none
    ≡ ok (record planned {
      buckets = record {
        to_import = "1.2-eu" ∷ [];
        to_update = [];
        to_sign = [];
        to_sbom = "1.1-eu" ∷ [];
      };
    })
unfolding reconcile_variant
variant_waits = refl

variant_raises : reconcile_variant plan [] mirrored day week none ≡ raise key_error
unfolding reconcile_variant
variant_raises = refl

reconcile_variant-IsPlaced_example :
    IsPlaced upstream mirrored after_a_month week none "-eu" plan.tags empty_buckets planned.buckets
reconcile_variant-IsPlaced_example =
    reconcile_variant-IsPlaced plan upstream mirrored after_a_month week none {r = planned}
      variant_runs

reconcile_variant_total_example :
    is_ok (reconcile_variant plan upstream mirrored day week none)
    ≡ all (λ t. has t upstream) plan.tags
reconcile_variant_total_example = reconcile_variant_total plan upstream mirrored day week none

abbrev current : MirrorArtifact
current = record {
  base_digest = "sha256:aa";
  transform_version = none;
  imported_at = some 2;
  attested = true;
  sbom_covered = true;
}

abbrev first_tag : SourceArtifact
first_tag = record { digest = "sha256:aa"; pushed_at = 1; revision = none }

abbrev expanded : ExpandedImport
expanded = record {
  name = "redis";
  destinations = none;
  platforms = none;
  archive = none;
  variants = plan ∷ [];
  owners = none;
  vendor = none;
}

abbrev state : MirrorState
state = record {
  source = upstream;
  mirror = mirrored;
  now = after_a_month;
  grace = week;
  marked_selection = "1.0-eu" ∷ "0.8-eu" ∷ [];
  marked_retention = "1.1-eu" ∷ [];
  retention = some (record { keep = pos 1; older_than_days = pos 30 });
  transform_versions = [];
}

abbrev result : ImportReconcile
result = record {
  name = "redis";
  variants = planned ∷ [];
  to_delete = "0.9-eu" ∷ [];
  to_unmark = "1.0-eu" ∷ [];
  to_mark_retention = "1.0-eu" ∷ [];
  to_unmark_retention = "1.1-eu" ∷ [];
}

import_runs : reconcile_import expanded state ≡ ok result
unfolding reconcile_import reconcile_variant desired_names retention_excess variant_excess
    kept_times alias_targets select_retention_excess excess_under
import_runs = refl

to_delete_exact_example :
    elem "0.9-eu" result.to_delete
    ≡ (not (any (λ v. is_output v "0.9-eu") expanded.variants) && has "0.9-eu" mirrored)
to_delete_exact_example = to_delete_exact expanded state {r = result} "0.9-eu" import_runs

to_mark_retention_exact_example :
    (elem "1.0-eu" result.to_mark_retention ≡ (
      not (elem "1.0-eu" state.marked_retention)
      && retains state.retention state expanded.variants "1.0-eu"))
    × (elem "1.0-eu" result.to_mark_retention ≡ true → elem "1.0-eu" result.to_delete ≡ false)
to_mark_retention_exact_example =
    to_mark_retention_exact expanded state {r = result} "1.0-eu" import_runs

abbrev next_state : MirrorState
next_state = record state { marked_retention = marks_after state result }

abbrev next_result : ImportReconcile
next_result = record result { to_mark_retention = []; to_unmark_retention = [] }

next_runs : reconcile_import expanded next_state ≡ ok next_result
unfolding reconcile_import reconcile_variant desired_names retention_excess variant_excess
    kept_times alias_targets select_retention_excess excess_under elem add_all
next_runs = refl

marks_converge_example :
    ((x : String)
      → elem x (marks_after state result) ≡ elem x (retention_excess state expanded.variants))
    × (next_result.to_mark_retention ≡ [])
    × (next_result.to_unmark_retention ≡ [])
marks_converge_example =
    marks_converge expanded state {r = result} {r' = next_result} import_runs next_runs

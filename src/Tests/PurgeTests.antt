-- ===== src/Tests/PurgeTests.antt =====
-- Runs of knock/use_cases/purge.py, knock/use_cases/gc.py and knock/domain/scan/gc.py.
use houba.Common.{refl, String, ◌≡◌, ◌↔◌, true, none, some, List, [], ◌∷◌}
use houba.Common.Int.{pos, scale}
use houba.Common.Eq.{elem, string_eq}
use houba.Errors.{ok, raise, adapter_error}
use houba.IsoTime.Unary.{strokes}
use houba.Config.{RegistryConfig, Roster}
use houba.Session.{
  ◌>>=◌, continue_with, for_each, for_each_with, walk_targets, walk_registry, walk_tags, try_except,
  handle, ensure_registry_session, walk_repo_refs, owned_refs, deleted_tag, deleted_referrer, Ports,
  Referrer,
}
use houba.Common.Parts.{before, after, starts_with}
use houba.Common.Eq.{add}
use houba.Scan.Refs.{is_referrers_fallback_tag, strip_prefix, all_hex}
use houba.Config.{registry_host, path_prefix}
use houba.Purge.{
  purge_image, process_all, process, inspect_digest, judge_usage, decide_purge, delete_marked,
  delete_mark_and_tag, apply, dry_run, day, purge_marks,
}
use houba.Purge.DryRun.{deletions, purge_marks_dry_run}
use houba.Scan.Gc.{select_superseded_referrers}
use houba.Scan.Gc.Groups.{IsSuperseded, select_superseded_referrers-IsSuperseded}
use houba.Scan.Summary.{ScanSummary, build_scan_annotations}
use houba.Scan.Gc.{parse}
use houba.Scan.Gc.RoundTrip.{parse-build_scan_annotations}
use houba.Common.Dict.{has}
use houba.Gc.{gc_referrers}
use houba.Gc.Safety.{IsTidy, gc_referrers-IsTidy}

abbrev harbor : RegistryConfig
harbor = record {
  host = "harbor/acme";
  username = some "robot";
  password = some "secret";
  tls_verify = true;
  ca_cert = none;
  deletion_mode = none;
}

abbrev roster : Roster
roster = ("main", harbor) ∷ []

abbrev scan_of : String → String → Referrer
scan_of digest at = record {
  digest = digest;
  artifact_type = "application/vnd.knock.scan.result.v1";
  annotations =
      ("io.knock.scan.timestamp", at)
      ∷ ("io.knock.scan.tool", "grype")
      ∷ ("io.knock.scan.format", "sarif")
      ∷ [];
  subject_tag = "1.0";
}

abbrev scans : List Referrer
scans = scan_of "sha256:s1" "|||." ∷ scan_of "sha256:s2" "|." ∷ scan_of "sha256:s3" "Z" ∷ []

-- A registry with one image that is marked, and an oracle that saw nothing.
abbrev ports : Ports
ports = record {
  configure_registry = λ h host tls ca. ok tt;
  login = λ h host user pass tls. ok tt;
  list_repositories = λ h host. ok ("acme/nginx" ∷ "other/nginx" ∷ []);
  list_tags = λ h repo. ok ("1.0" ∷ []);
  list_referrers = λ h ref type. ok scans;
  inspect = λ h ref.
      ok (record { digest = "sha256:aa"; created = none; annotations = []; config_labels = [] });
  get_annotations = λ h ref. raise adapter_error;
  last_prod_usage = λ h query. ok (record { last_seen = none; detail = "unseen" });
  delete_referrer = λ h ref. ok tt;
  delete_tag = λ h ref. ok tt;
}

purge_marks_dry_run_example :
    deletions (purge_marks ports strokes roster none "io.knock" (pos 1) day dry_run []).1 ≡ []
unfolding deletions
purge_marks_dry_run_example =
    purge_marks_dry_run ports strokes roster none "io.knock" (pos 1) day []

select_superseded_referrers-IsSuperseded_example :
    (elem "sha256:s2"
        (select_superseded_referrers strokes.fromisoformat scans (pos 1) (pos 2) 9 "io.knock")
      ≡ true)
    ↔ IsSuperseded strokes.fromisoformat "io.knock" scans (pos 1) (pos 2) 9 "sha256:s2"
select_superseded_referrers-IsSuperseded_example =
    select_superseded_referrers-IsSuperseded strokes.fromisoformat "io.knock" scans (pos 1) (pos 2)
      9 "sha256:s2"

gc_referrers-IsTidy_example :
    IsTidy strokes.fromisoformat "io.knock"
      (pos 1)
      (scale (pos 1) day)
      9
      ports
      (gc_referrers strokes.fromisoformat ports roster
        (some "main")
        "io.knock"
        (pos 1)
        (pos 1)
        9
        apply
        []).1
unfolding IsTidy
gc_referrers-IsTidy_example =
    gc_referrers-IsTidy strokes.fromisoformat ports roster (some "main") "io.knock" (pos 1) (pos 1)
      9 apply [] tt

-- Each mark is cleared before the tag.
purge_marks_test :
    deletions (purge_marks ports strokes roster none "io.knock" (pos 1) day apply []).1 ≡ (
      deleted_tag "harbor/acme/nginx:1.0"
      ∷ deleted_referrer "harbor/acme/nginx@sha256:s3"
      ∷ deleted_tag "harbor/acme/nginx:1.0"
      ∷ deleted_referrer "harbor/acme/nginx@sha256:s2"
      ∷ deleted_tag "harbor/acme/nginx:1.0"
      ∷ deleted_referrer "harbor/acme/nginx@sha256:s1"
      ∷ [])
unfolding deletions purge_marks ◌>>=◌ continue_with for_each for_each_with walk_targets
    walk_registry walk_tags purge_image process_all process inspect_digest judge_usage decide_purge
    delete_marked delete_mark_and_tag try_except handle ensure_registry_session walk_repo_refs
    owned_refs registry_host path_prefix before after starts_with elem add is_referrers_fallback_tag
    strip_prefix all_hex
purge_marks_test = refl

abbrev report_summary : ScanSummary
report_summary = record {
  tool = "grype";
  tool_version = "0.80";
  facts = ("vuln.high", "3") ∷ ("vuln.low", "0") ∷ [];
}

parse-build_scan_annotations_example :
    parse strokes.fromisoformat "io.knock" (record {
      digest = "sha256:s1";
      artifact_type = "application/vnd.knock.scan.result.v1";
      annotations =
          build_scan_annotations strokes.isoformat report_summary "io.knock" "sha256:aa" "sarif" 3;
      subject_tag = "1.0";
    })
    ≡ some (record { digest = "sha256:s1"; tool = "grype"; format = "sarif"; timestamp = 3 })
unfolding has elem
parse-build_scan_annotations_example =
    parse-build_scan_annotations strokes "io.knock" report_summary "sha256:s1"
      "application/vnd.knock.scan.result.v1" "sha256:aa" "1.0" "sarif" 3 refl
      (record { timestamp = refl; tool = refl; format = refl })

-- ===== src/Tests/AuditTests.antt =====
-- Runs of knock/use_cases/audit.py.
use houba.Common.{◌≤◌, refl, true, false, none, some, [], ◌∷◌}
use houba.Common.Eq.{elem, add}
use houba.Common.Dict.{get, has}
use houba.Common.Parts.{before, after, starts_with}
use houba.Errors.{ok, raise, regctl_error, adapter_error}
use houba.Config.{RegistryConfig, Roster, registry_host, path_prefix}
use houba.Scan.Refs.{is_referrers_fallback_tag, strip_prefix, all_hex}
use houba.Stamp.{is_stamped}
use houba.Session.{
  Ports, continue_with, handle, try_except, ◌>>=◌, for_each_with, owned_refs,
  ensure_registry_session, walk_repo_refs,
}
use houba.Audit.{
  CoverageOutcome, coverage_counts, report_on, audit_tag, audit_repo, audit_registry,
  audit_coverage, classify_image, has_referrer, has_any_referrer,
}
use houba.Audit.Limit.{audit_coverage_limit}

abbrev harbor : RegistryConfig
harbor = record {
  host = "harbor/acme";
  username = none;
  password = none;
  tls_verify = true;
  ca_cert = none;
  deletion_mode = none;
}

abbrev roster : Roster
roster = ("main", harbor) ∷ []

-- A registry with two tags, stamped but not signed.
abbrev ports : Ports
ports = record {
  configure_registry = λ h host tls ca. ok tt;
  login = λ h host user pass tls. ok tt;
  list_repositories = λ h host. ok ("acme/nginx" ∷ "other/nginx" ∷ []);
  list_tags = λ h repo. ok ("1.0" ∷ "1.1" ∷ []);
  list_referrers = λ h ref type. ok [];
  inspect = λ h ref. raise adapter_error;
  get_annotations = λ h ref. ok ("sha256:aa", ("io.knock.policy", "nginx") ∷ []);
  last_prod_usage = λ h query. raise adapter_error;
  delete_referrer = λ h ref. raise adapter_error;
  delete_tag = λ h ref. raise adapter_error;
}

abbrev stamped : CoverageOutcome
stamped = record {
  image_ref = "harbor/acme/nginx:1.0";
  digest = some "sha256:aa";
  covered = true;
  signed = some false;
  sbom = none;
  policy = some "nginx";
  error = none;
}

abbrev lost : CoverageOutcome
lost = record {
  image_ref = "harbor/acme/nginx:1.1";
  digest = none;
  covered = false;
  signed = none;
  sbom = none;
  policy = none;
  error = some (record { type = regctl_error; exit_code = 2 });
}

audit_coverage_limit_example : 1 ≤ 1
unfolding audit_coverage ◌>>=◌ continue_with for_each_with audit_registry audit_repo audit_tag
    classify_image try_except handle has_referrer has_any_referrer is_stamped
    ensure_registry_session walk_repo_refs owned_refs registry_host path_prefix before after
    starts_with elem add is_referrers_fallback_tag strip_prefix all_hex get has coverage_counts
audit_coverage_limit_example =
    audit_coverage_limit ports "io.knock" true false roster none 1 []
      {report = report_on (harbor ∷ []) (stamped ∷ [])} refl

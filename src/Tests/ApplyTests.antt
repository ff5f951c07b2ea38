-- ===== src/Tests/ApplyTests.antt =====
-- Runs of knock/use_cases/reconcile_registry.py and knock/domain/transforms.
use houba.Common.{String, ◌≡◌, refl, true, false, Option, none, some, List, [], ◌∷◌}
use houba.Common.Dict.{Dict}
use houba.Errors.{ok, raise, regctl_error}
use houba.Config.{RegistryConfig, CaCertSource, PackageMirror}
use houba.Expand.{VariantPlan, ExpandedImport}
use houba.IsoTime.Unary.{strokes}
use houba.Policy.{
  generic, registry_source, Spec, Value, null, str, arr, cons, nil, purge, TransformStep,
}
use houba.Report.{imported}
use houba.Session.{Ports, copied, annotated}
use houba.Session.Edges.{Edges}
use houba.Session.Stages.{IsAdded}
use houba.Transforms.{ResolvedStep, render, Rendered}
use houba.Transforms.Resolve.{ResolvedTransform, resolve_transform}
use houba.Transforms.Resolve.Renders.{render-resolve_transform}
use houba.Apply.{Plan, Settings, require_registry_source, to_source_artifact}
use houba.Apply.Stages.{
  WorkLists, work_of, alias_items, import_works, sign_works, sbom_works, out_to_src, delete_works,
  report_variants, report_variant, skip_unchanged, skip_tag, target_report,
}
use houba.Apply.Probe.{probe_source, probe_mirror, probe_marks, probe_tags, selected_tags, all_tags}
use houba.Apply.Operations.{run_operation, copy, emit_applied}
use houba.Apply.Operations.Placing.{
  do_import, import_body, place, attach_if_wanted, attest_if_wanted, stamp_for, import_operation,
}
use houba.Reconcile.{reconcile_variant}
use houba.Reconcile.Import.{
  ImportReconcile, reconcile_import, desired_names, retention_excess, excess_under,
}
use houba.Retention.{resolve_archive}
use houba.Common.Order.{sorted}
use houba.Sharding.{resolve_deletion_mode}
use houba.Apply.Probe.{marked_on}
use houba.Common.Dict.{get, put}
use houba.Stamp.{lineage_annotations, build_stamp_annotations}
use houba.Session.{◌>>=◌, continue_with, for_each, inspected, listed_tags, applied_operation}
use houba.Session.Edges.{rescue, rescued, run_stage}
use houba.Apply.Run.{
  apply_known, select_stage, retention_stage, auto_unmark, unmark_all, effective_mode, Known,
  apply_plan, apply_work, state_of,
}
use houba.Apply.Run.Permitted.{IsPermitted}
use houba.Apply.Run.Permitted.Whole.{apply_plan-IsPermitted}

abbrev no_file : String → Option String
no_file path = none

abbrev certs : Dict String CaCertSource
certs = ("corp", record { path = none; pem = some "PEM" }) ∷ []

abbrev mirrors : Dict String PackageMirror
mirrors = ("deb", record { apt = some "https://deb.acme"; apk = none }) ∷ []

abbrev version : List ResolvedStep → String
version steps = "sha256:v"

abbrev inject : TransformStep
inject = record { name = "injectCA"; params = ("certs", arr (cons (str "corp") nil)) ∷ [] }

abbrev rewrite : TransformStep
rewrite = record { name = "rewritePackageSources"; params = ("mirror", str "deb") ∷ [] }

abbrev corp : ResolvedTransform
corp = record {
  resolved_steps =
      record {
        step = inject;
        resources =
            record {
              kind = houba.Transforms.ca_cert;
              name = "corp";
              filename = some "corp.crt";
              content = some "PEM";
              apt = none;
              apk = none;
            }
            ∷ [];
      }
      ∷ [];
  version = "sha256:v";
}

resolves : resolve_transform no_file certs mirrors version (inject ∷ []) ≡ ok corp
unfolding resolve_transform
resolves = refl

renders :
    render corp.resolved_steps "docker.io/nginx@sha256:a"
    ≡ ok (record {
      dockerfile =
          "FROM docker.io/nginx@sha256:a\nCOPY corp.crt /usr/local/share/ca-certificates/\nRUN update-ca-certificates\n";
      context_files = record { path = "corp.crt"; content = "PEM" } ∷ [];
    })
unfolding render
renders = refl

render-resolve_transform_example :
    (out : Rendered) × (render corp.resolved_steps "docker.io/nginx@sha256:a" ≡ ok out)
render-resolve_transform_example =
    render-resolve_transform no_file certs mirrors version (inject ∷ []) "docker.io/nginx@sha256:a"
      corp resolves

abbrev harbor : RegistryConfig
harbor = record {
  host = "harbor";
  username = none;
  password = none;
  tls_verify = true;
  ca_cert = none;
  deletion_mode = none;
}

abbrev plain : VariantPlan
plain = record { name = "default"; suffix = ""; transform = []; tags = "1.0" ∷ []; aliases = [] }

abbrev import_of : ExpandedImport
import_of = record {
  name = "web";
  destinations = none;
  platforms = none;
  archive = none;
  variants = plain ∷ [];
  owners = none;
  vendor = none;
}

abbrev spec : Spec
spec = record {
  artifact_type = generic;
  source = registry_source "docker.io" "nginx";
  deletion_mode = none;
  defaults = none;
  imports = [];
}

abbrev plan : Plan
plan = record {
  policy_name = "nginx";
  spec = spec;
  expanded = import_of;
  dest_repo = "harbor/acme/nginx";
  config = harbor;
  transforms = [];
}

abbrev settings : Settings
settings = record {
  label_prefix = "";
  build_platform = "linux/amd64";
  now = 3;
  dry_run_tags = false;
  dry_run_deletions = false;
  deletion_mode = purge;
  attestor = false;
  attest_builder_id = "";
  sbom_generator = false;
  sbom_formats = [];
  retention_global = none;
}

-- A source with one image, and an empty mirror.
abbrev ports : Ports
ports = record {
  configure_registry = λ h host tls ca. ok tt;
  login = λ h host user pass tls. ok tt;
  list_repositories = λ h host. ok [];
  list_tags = λ h repo. ok [];
  list_referrers = λ h ref type. ok [];
  inspect = λ h ref.
      ok (record { digest = "sha256:a"; created = some 1; annotations = []; config_labels = [] });
  get_annotations = λ h ref. raise regctl_error;
  last_prod_usage = λ h query. raise regctl_error;
  delete_referrer = λ h ref. ok tt;
  delete_tag = λ h ref. ok tt;
}

abbrev edges : Edges
edges = record {
  list_all_referrers = λ h ref. ok [];
  copy = λ h src dst. ok tt;
  annotate = λ h ref annotations publish_as. ok "sha256:b";
  put_referrer = λ h ref new. ok "sha256:r";
  put_artifact = λ h ref type path media annotations. ok "sha256:p";
  build_and_push = λ h request. raise regctl_error;
  generate = λ h ref formats. ok [];
  attest = λ h ref statement. ok "sha256:s";
  verify = λ h ref type. ok [];
}

abbrev json_loads : String → Option Value
json_loads text = some null

apply_plan-IsPermitted_example :
    IsAdded
      (IsPermitted plan settings "docker.io/nginx")
      []
      (apply_plan ports edges strokes json_loads plan settings []).1
unfolding require_registry_source
apply_plan-IsPermitted_example =
    apply_plan-IsPermitted plan settings "docker.io" "nginx" ports edges strokes json_loads [] refl

abbrev known : Known
known = record {
  source_registry = "docker.io";
  source_repository = "nginx";
  source = ("1.0", record { digest = "sha256:a"; pushed_at = 1; revision = none }) ∷ [];
  probe = record { mirror = []; mirror_digests = []; missing_sbom = [] };
  marked_referrers = [];
}

abbrev planned : ImportReconcile
planned = record {
  name = "web";
  variants =
      record {
        variant = "default";
        buckets = record { to_import = "1.0" ∷ []; to_update = []; to_sign = []; to_sbom = [] };
        aliases = [];
      }
      ∷ [];
  to_delete = [];
  to_unmark = [];
  to_mark_retention = [];
  to_unmark_retention = [];
}

abbrev work : WorkLists
work = record {
  import_items =
      record {
        variant = "default";
        vplan = plain;
        out_tag = "1.0";
        src_tag = "1.0";
        kind = imported;
      }
      ∷ [];
  sign_items = [];
  sbom_items = [];
}

-- The calls of a run on one new tag: a copy by digest, and its stamp on the digest that was
-- placed, published under the tag.
abbrev stamp : Dict String String
stamp =
    ("org.opencontainers.image.title", "nginx")
    ∷ ("org.opencontainers.image.source", "docker.io/nginx")
    ∷ ("org.opencontainers.image.base.name", "docker.io/nginx:1.0")
    ∷ ("org.opencontainers.image.base.digest", "sha256:a")
    ∷ ("org.opencontainers.image.created", strokes.isoformat 3)
    ∷ []

placed_calls : (apply_plan ports edges strokes json_loads plan settings []).1 ≡ (
    applied_operation (record {
      policy = "nginx";
      dest_repo = "harbor/acme/nginx";
      variant = "default";
      kind = imported;
      out_tag = "1.0";
      src_tag = some "1.0";
      digest = some "sha256:a";
      applied = true;
      transform_steps = none;
      out_digest = some "sha256:b";
    })
    ∷ annotated "harbor/acme/nginx@sha256:a" stamp (some "harbor/acme/nginx:1.0")
    ∷ copied "docker.io/nginx@sha256:a" "harbor/acme/nginx:1.0"
    ∷ listed_tags "harbor/acme/nginx"
    ∷ inspected "docker.io/nginx:1.0"
    ∷ [])
unfolding apply_plan ◌>>=◌ continue_with require_registry_source probe_source probe_mirror
    probe_marks selected_tags all_tags sorted apply_known reconcile_import reconcile_variant
    desired_names retention_excess excess_under state_of work_of apply_work run_stage for_each
    do_import run_operation import_body place copy rescue rescued emit_applied attach_if_wanted
    attest_if_wanted alias_items select_stage retention_stage auto_unmark unmark_all report_variants
    report_variant skip_unchanged skip_tag target_report effective_mode to_source_artifact get put
    stamp_for build_stamp_annotations probe_tags import_works out_to_src sign_works sbom_works
    resolve_deletion_mode delete_works resolve_archive marked_on import_operation
    lineage_annotations
placed_calls = refl

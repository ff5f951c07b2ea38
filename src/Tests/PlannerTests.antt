-- ===== src/Tests/PlannerTests.antt =====
-- Runs of the planner of knock/use_cases/reconcile_registry.py and of knock/use_cases/reconcile.py.
use houba.Common.{ℕ, String, ◌≡◌, refl, true, false, Option, none, some, List, [], ◌∷◌, map}
use houba.Common.Text.{◌==◌}
use houba.Config.{RegistryConfig, Roster}
use houba.Common.Order.{sorted_by}
use houba.Common.Parts.{text_length, starts_with}
use houba.Config.Match.{
  match_registry_by_host, match_registry_by_host-IsMostSpecific, IsMostSpecific, is_serving, serves,
}
use houba.Expand.{expand_import}
use houba.Merge.{resolve_imports}
use houba.Planner.Isolation.{apply-reports_each}
use houba.Planner.{
  plan_policies, plan_policy, source_repo, plan_imports, plan_import, validate_variants,
  transforms_of, resolve_if_any, plan_destinations, dest_repo_of,
}
use houba.Planner.Application.{apply}
use houba.Apply.{require_registry_source}
use houba.Transforms.{validate_transform_steps}
use houba.Config.{resolve_registry}
use houba.Scan.Refs.{is_referrers_fallback_tag}
use houba.Session.{◌>>=◌, continue_with}
use houba.Errors.{ok, raise, regctl_error}
use houba.IsoTime.Unary.{strokes}
use houba.Policy.{generic, registry_source, Value, null, purge, TagSelection, ImportProfile}
use houba.Report.{PolicyReport}
use houba.Session.{Ports}
use houba.Session.Edges.{Edges}
use houba.Apply.{Plan, Settings}
use houba.Planner.{MirrorPolicy, Runtime, Rosters, Planned, plan}
use houba.Planner.Driver.{PolicyPlanner, registry_planner, Ready}

abbrev ghcr : String → RegistryConfig
ghcr host = record {
  host = host;
  username = none;
  password = none;
  tls_verify = true;
  ca_cert = none;
  deletion_mode = none;
}

-- Two namespaces of one registry, and another registry.
abbrev registries : Roster
registries =
    ("bare", ghcr "ghcr.io") ∷ ("acme", ghcr "ghcr.io/acme") ∷ ("main", ghcr "harbor.io") ∷ []

matches_namespace :
    match_registry_by_host "ghcr.io/acme/nginx:1.0" registries ≡ some ("acme", ghcr "ghcr.io/acme")
unfolding match_registry_by_host houba.Scan.Refs.registry_host sorted_by text_length is_serving
    houba.Config.registry_host houba.Config.path_prefix starts_with
matches_namespace = refl

abbrev runtime : Runtime
runtime = record {
  search = λ pattern tag. pattern == tag;
  captures_in = λ pattern tag. [];
  list_set = λ tags. tags;
  read_text = λ path. none;
  transform_version = λ steps. "sha256:v";
}

abbrev rosters : Rosters
rosters = record { roster = ("main", ghcr "harbor.io") ∷ []; ca_certs = []; package_mirrors = [] }

abbrev tags : TagSelection
tags = record {
  include_regex = none;
  exclude_regex = [];
  semver_only = false;
  names = "1.0" ∷ [];
  aliases = [];
  fields_set = [];
}

abbrev web : ImportProfile
web = record {
  name = "web";
  tags = tags;
  destinations = some (record { registry = none; project = "acme"; repository = "nginx" } ∷ []);
  transform = none;
  archive = none;
  platforms = none;
  variants = none;
  owners = none;
  vendor = none;
}

abbrev nginx : MirrorPolicy
nginx = record {
  name = "nginx";
  spec = record {
    artifact_type = generic;
    source = registry_source "docker.io" "nginx";
    deletion_mode = none;
    defaults = none;
    imports = web ∷ [];
  };
}

-- A registry whose tags can be listed, where nothing else works.
abbrev ports : Ports
ports = record {
  configure_registry = λ h host tls ca. ok tt;
  login = λ h host user pass tls. ok tt;
  list_repositories = λ h host. raise regctl_error;
  list_tags = λ h repo. ok ("1.0" ∷ []);
  list_referrers = λ h ref type. raise regctl_error;
  inspect = λ h ref. raise regctl_error;
  get_annotations = λ h ref. raise regctl_error;
  last_prod_usage = λ h query. raise regctl_error;
  delete_referrer = λ h ref. raise regctl_error;
  delete_tag = λ h ref. raise regctl_error;
}

abbrev plan_of_web : Plan
plan_of_web = record {
  policy_name = "nginx";
  spec = nginx.spec;
  expanded = record {
    name = "web";
    destinations = some (record { registry = none; project = "acme"; repository = "nginx" } ∷ []);
    platforms = none;
    archive = none;
    variants =
        record { name = "default"; suffix = ""; transform = []; tags = "1.0" ∷ []; aliases = [] }
        ∷ [];
    owners = none;
    vendor = none;
  };
  dest_repo = "harbor.io/acme/nginx";
  config = ghcr "harbor.io";
  transforms = [];
}

abbrev planned : Planned
planned = (nginx, plan_of_web ∷ []) ∷ []

plans : (plan runtime rosters ports (nginx ∷ []) [] []).0 ≡ ok ([], planned, [])
unfolding plan resolve_imports expand_import ◌>>=◌ continue_with plan_policies plan_policy
    source_repo require_registry_source match_registry_by_host houba.Scan.Refs.registry_host
    is_serving houba.Config.registry_host plan_imports plan_import validate_variants
    validate_transform_steps transforms_of resolve_if_any plan_destinations resolve_registry
    dest_repo_of sorted_by is_referrers_fallback_tag text_length
plans = refl

match_registry_by_host-IsMostSpecific_example :
    IsMostSpecific
      (serves "ghcr.io/acme/nginx:1.0")
      registries
      (match_registry_by_host "ghcr.io/acme/nginx:1.0" registries)
match_registry_by_host-IsMostSpecific_example =
    match_registry_by_host-IsMostSpecific "ghcr.io/acme/nginx:1.0" registries

abbrev edges : Edges
edges = record {
  list_all_referrers = λ h ref. raise regctl_error;
  copy = λ h src dst. raise regctl_error;
  annotate = λ h ref annotations publish_as. raise regctl_error;
  put_referrer = λ h ref new. raise regctl_error;
  put_artifact = λ h ref type path media annotations. raise regctl_error;
  build_and_push = λ h request. raise regctl_error;
  generate = λ h ref formats. raise regctl_error;
  attest = λ h ref statement. raise regctl_error;
  verify = λ h ref type. raise regctl_error;
}

abbrev json_loads : String → Option Value
json_loads text = some null

abbrev settings : Settings
settings = record {
  label_prefix = "";
  build_platform = "linux/amd64";
  now = 3;
  dry_run_tags = false;
  dry_run_deletions = false;
  deletion_mode = purge;
  attestor = false;
  attest_builder_id = "";
  sbom_generator = false;
  sbom_formats = [];
  retention_global = none;
}

-- Every target of the policy fails at its first inspection.
apply-reports_each_example :
    (reports : List PolicyReport) × ((apply ports edges strokes json_loads settings
        (some planned)
        []
        []).0
      ≡ ok reports)
    × (map (λ r. r.name) reports ≡ "nginx" ∷ [])
apply-reports_each_example =
    apply-reports_each runtime rosters ports (nginx ∷ []) [] [] ([], planned, []) ports edges
      strokes json_loads settings [] [] plans

abbrev planner : Ports → PolicyPlanner
planner p = registry_planner runtime rosters p edges strokes json_loads settings

abbrev sha256 : String → List ℕ
sha256 name = 1 ∷ []

-- The same registry, where tags cannot be listed either.
abbrev down : Ports
down = record ports { list_tags = λ h repo. raise regctl_error }

abbrev ready : List Ready
ready = record { planner = planner ports; plans = (planned, []) } ∷ []

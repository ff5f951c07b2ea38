-- ===== src/Planner.antt =====
-- `RegistryPlanner` of knock/use_cases/reconcile_registry.py: `plan`; Planner/Application has `apply`. The
-- planner's `logged_in` is passed on from call to call, and what `plan` leaves in `_plans` is an
-- argument of `apply`.
pub mod Application
pub mod Isolation
pub mod ReadOnly
pub mod Driver
use houba.Common.{
  String, Bool, true, false, not, Option, none, some, List, [], ◌∷◌, ◌++◌, filter, if◌then◌else◌,
}
use houba.Common.Dict.{Dict, put}
use houba.Common.Eq.{string_eq}
use houba.Common.Keys.{◌⊕◌}
use houba.Collision.{AliasTarget}
use houba.Config.{Roster, RegistryConfig, CaCertSource, PackageMirror, resolve_registry}
use houba.Config.Match.{match_registry_by_host}
use houba.Errors.{
  Result, ok, raise, ErrorClass, ErrorInfo, error_of, internal_error, value_error,
  ◌>>=◌ as bind_result,
}
use houba.Expand.{VariantPlan, ExpandedImport, expand_import}
use houba.IsoTime.{IsoFormat}
use houba.Merge.{ResolvedImport, resolve_imports}
use houba.Policy.{Spec, Source, registry_source, git_source, Destination, TransformStep, Value}
use houba.Report.{
  Operation, VariantReport, TargetReport, PolicyReport, Counts, failed_status, node_status,
  merge_counts,
}
use houba.Scan.Refs.{is_referrers_fallback_tag}
use houba.Session.{
  Ports, Io, Done, pure, lift, perform, ◌>>=◌, listed_tags, ensure_registry_session, started_policy,
  completed_policy, failed_policy,
}
use houba.Session.Edges.{Edges, attempt, report}
use houba.Transforms.{ResolvedStep, validate_transform_steps, or_raise}
use houba.Transforms.Resolve.{ResolvedTransform, resolve_transform}
use houba.Apply.{Plan, Settings, require_registry_source}
use houba.Apply.Run.{apply_plan}
use houba.Apply.Stages.{all_operations}

-- The name in the metadata of a policy, and its spec.
pub record MirrorPolicy : Type 0 where
  pub name : String
  pub spec : Spec

-- What the planning takes from outside: regular expressions, the listing of a set, the reading of
-- a file and the hash of a transform.
pub record Runtime : Type 0 where
  pub search : String → String → Bool
  pub captures_in : String → String → Dict String String
  pub list_set : List String → List String
  pub read_text : String → Option String
  pub transform_version : List ResolvedStep → String

pub record Rosters : Type 0 where
  pub roster : Roster
  pub ca_certs : Dict String CaCertSource
  pub package_mirrors : Dict String PackageMirror

-- `isinstance(policy.spec.source, RegistrySource)`
abbrev pub is_registry : Source → Bool
is_registry (registry_source registry repository) = true
is_registry (git_source url ref path) = false

abbrev pub handles : MirrorPolicy → Bool
handles policy = is_registry policy.spec.source

-- `_source_repo`
unfoldable pub source_repo : Spec → Result String
source_repo spec = bind_result (require_registry_source spec) (λ s. ok (s.0 ⊕ ("/" ⊕ s.1)))

unfoldable pub validate_variants : List VariantPlan → Result (Unit {0})
validate_variants [] = ok tt
validate_variants (v ∷ variants) =
    bind_result (validate_transform_steps v.transform) (λ valid. validate_variants variants)

abbrev pub destinations_of : Option (List Destination) → List Destination
destinations_of none = []
destinations_of (some destinations) = destinations

unfoldable pub dest_repo_of : RegistryConfig → Destination → String
dest_repo_of cfg dest = cfg.host ⊕ ("/" ⊕ (dest.project ⊕ ("/" ⊕ dest.repository)))

-- The aliases of one variant, and of all planned ones, with the suffixes.
abbrev pub variant_aliases : String → String → Dict String String → List AliasTarget
variant_aliases dest_repo suffix [] = []
variant_aliases dest_repo suffix ((alias, target) ∷ aliases) =
    record { dest_repo = dest_repo; alias = alias ⊕ suffix; target = target ⊕ suffix }
    ∷ variant_aliases dest_repo suffix aliases

abbrev pub variants_aliases : String → List VariantPlan → List AliasTarget
variants_aliases dest_repo [] = []
variants_aliases dest_repo (v ∷ variants) =
    variant_aliases dest_repo v.suffix v.aliases ++ variants_aliases dest_repo variants

abbrev pub alias_entries : List Plan → List AliasTarget
alias_entries [] = []
alias_entries (p ∷ plans) = variants_aliases p.dest_repo p.expanded.variants ++ alias_entries plans

-- `self._plans`
abbrev pub Planned : Type 0
Planned = List (MirrorPolicy × List Plan)

abbrev pub all_entries : Planned → List AliasTarget
all_entries [] = []
all_entries ((policy, plans) ∷ planned) = alias_entries plans ++ all_entries planned

module _ (runtime : Runtime) (rosters : Rosters) where
  -- The transform of a variant that has steps.
  unfoldable pub resolve_if_any :
      String
      → List TransformStep
      → Dict String ResolvedTransform
      → Result (Dict String ResolvedTransform)
  resolve_if_any name [] transforms = ok transforms
  resolve_if_any name (s ∷ steps) transforms =
      bind_result
        (resolve_transform runtime.read_text rosters.ca_certs rosters.package_mirrors
          runtime.transform_version (s ∷ steps))
        (λ resolved. ok (put name resolved transforms))

  unfoldable pub transforms_of :
      List VariantPlan → Dict String ResolvedTransform → Result (Dict String ResolvedTransform)
  transforms_of [] transforms = ok transforms
  transforms_of (v ∷ variants) transforms =
      bind_result (resolve_if_any v.name v.transform transforms) (transforms_of variants)

  unfoldable pub plan_destinations :
      MirrorPolicy
      → ExpandedImport
      → Dict String ResolvedTransform
      → List Destination
      → Result (List Plan)
  plan_destinations policy expanded transforms [] = ok []
  plan_destinations policy expanded transforms (dest ∷ destinations) =
      bind_result (resolve_registry dest.registry rosters.roster) (λ found.
        bind_result (plan_destinations policy expanded transforms destinations) (λ plans. ok (
          record {
            policy_name = policy.name;
            spec = policy.spec;
            expanded = expanded;
            dest_repo = dest_repo_of found.1 dest;
            config = found.1;
            transforms = transforms;
          }
          ∷ plans)))

  -- The body of the loop over the imports; `none` from `expand_import` is a `ValueError`.
  unfoldable pub plan_import : MirrorPolicy → List String → ResolvedImport → Result (List Plan)
  plan_import policy src_tags resolved =
      bind_result
        (or_raise (raise value_error)
          (expand_import runtime.search runtime.captures_in runtime.list_set resolved src_tags))
        (λ expanded. bind_result (validate_variants expanded.variants) (λ valid.
          bind_result (transforms_of expanded.variants []) (λ transforms.
            plan_destinations policy expanded transforms (destinations_of resolved.destinations))))

  unfoldable pub plan_imports :
      MirrorPolicy → List String → List ResolvedImport → Result (List Plan)
  plan_imports policy src_tags [] = ok []
  plan_imports policy src_tags (resolved ∷ imports) =
      bind_result (plan_import policy src_tags resolved)
        (λ first. bind_result (plan_imports policy src_tags imports) (λ rest. ok (first ++ rest)))

  module _ (ports : Ports) where
    -- `if src_match is not None:`
    abbrev pub source_session : Option (String × RegistryConfig) → List String → Io (List String)
    source_session none logged_in = pure logged_in
    source_session (some src_match) logged_in = ensure_registry_session ports src_match.1 logged_in

    -- The body of the loop over the policies.
    unfoldable pub plan_policy : MirrorPolicy → List String → Io (List Plan × List String)
    plan_policy policy logged_in = do
      src_repo ← lift (source_repo policy.spec)
      now_in ← source_session (match_registry_by_host src_repo rosters.roster) logged_in
      tags ← perform (listed_tags src_repo) (λ h. ports.list_tags h src_repo)
      imports ← lift (resolve_imports policy.spec)
      plans ←
          lift (plan_imports policy (filter (λ t. not (is_referrers_fallback_tag t)) tags) imports)
      pure (plans, now_in)

    unfoldable pub plan_policies : List MirrorPolicy → List String → Io (Planned × List String)
    plan_policies [] logged_in = pure ([], logged_in)
    plan_policies (policy ∷ policies) logged_in = do
      first ← plan_policy policy logged_in
      rest ← plan_policies policies first.1
      pure ((policy, first.0) ∷ rest.0, rest.1)

    -- `RegistryPlanner.plan`: the alias entries, and what is left for `apply`.
    unfoldable pub plan :
        List MirrorPolicy → List String → Io (List AliasTarget × Planned × List String)
    plan policies logged_in = do
      planned ← plan_policies policies logged_in
      pure (all_entries planned.0, planned.0, planned.1)

-- ===== src/Planner/Driver.antt =====
-- knock/use_cases/reconcile.py, over the interface of knock/use_cases/policy_planner.py. The driver's
-- list of planners is a parameter; `registry_planner` is its first member.
pub mod Phases
use houba.Common.{
  ℕ, String, Bool, true, false, not, ◌&&◌, ◌||◌, Option, none, some, List, [], ◌∷◌, ◌++◌, map, all,
  any, filter, length, if◌then◌else◌,
}
use houba.Collision.{AliasTarget, detect_alias_collisions, detect_dest_repo_collisions}
use houba.Config.{Roster, resolve_registry}
use houba.Errors.{Result, ok, raise, internal_error, ◌>>=◌ as bind_result}
use houba.IsoTime.{IsoFormat}
use houba.Merge.{ResolvedImport, resolve_imports}
use houba.Policy.{Destination, Value}
use houba.Report.{
  PolicyReport, RunReport, NodeStatus, ok_status, partial_status, failed_status, Counts,
  merge_counts,
}
use houba.Session.{Ports, Io, Done, pure, lift, ◌>>=◌, started_run, completed_run}
use houba.Session.Edges.{Edges, report}
use houba.Sharding.{owns}
use houba.Apply.{Settings}
use houba.Planner.{
  MirrorPolicy, Runtime, Rosters, Planned, handles, destinations_of, dest_repo_of, plan,
}
use houba.Planner.Application.{apply}

-- `PolicyPlanner`. What a planner keeps between its two phases is its own.
pub record PolicyPlanner : Type 1 where
  pub Plans : Type 0
  pub claims : MirrorPolicy → Bool
  pub plan_batch : List MirrorPolicy → Io (List AliasTarget × Plans)
  pub apply_plans : Plans → Io (List PolicyReport)

-- `RegistryPlanner` behind the interface, with a session set of its own.
abbrev pub registry_planner :
    Runtime
    → Rosters
    → Ports
    → Edges
    → IsoFormat
    → (String → Option Value)
    → Settings
    → PolicyPlanner
registry_planner runtime rosters ports edges time json_loads settings = record {
  Plans = Planned × List String;
  claims = handles;
  plan_batch = λ policies. do
    planned ← plan runtime rosters ports policies []
    pure (planned.0, (planned.1, planned.2));
  apply_plans = λ planned. apply ports edges time json_loads settings (some planned.0) planned.1;
}

-- `_resolved_dest_repos`
unfoldable pub repos_of : Roster → List Destination → Result (List String)
repos_of roster [] = ok []
repos_of roster (dest ∷ destinations) =
    bind_result (resolve_registry dest.registry roster) (λ found.
      bind_result (repos_of roster destinations) (λ repos. ok (dest_repo_of found.1 dest ∷ repos)))

unfoldable pub repos_of_imports : Roster → List ResolvedImport → Result (List String)
repos_of_imports roster [] = ok []
repos_of_imports roster (resolved ∷ imports) =
    bind_result (repos_of roster (destinations_of resolved.destinations))
      (λ first. bind_result (repos_of_imports roster imports) (λ rest. ok (first ++ rest)))

unfoldable pub resolved_dest_repos : Roster → MirrorPolicy → Result (List String)
resolved_dest_repos roster policy =
    bind_result (resolve_imports policy.spec) (repos_of_imports roster)

-- `owners`
unfoldable pub owners_of : Roster → List MirrorPolicy → Result (List (String × String))
owners_of roster [] = ok []
owners_of roster (policy ∷ policies) = bind_result (resolved_dest_repos roster policy) (λ repos.
    bind_result (owners_of roster policies)
      (λ rest. ok (map (λ repo. (repo, policy.name)) repos ++ rest)))

-- `batches`
pub record Batch : Type 1 where
  pub planner : PolicyPlanner
  pub policies : List MirrorPolicy

unfoldable pub batches_of : List PolicyPlanner → List MirrorPolicy → List Batch
batches_of [] policies = []
batches_of (p ∷ planners) policies =
    record { planner = p; policies = filter p.claims policies } ∷ batches_of planners policies

abbrev pub is_claimed : List PolicyPlanner → MirrorPolicy → Bool
is_claimed [] policy = false
is_claimed (p ∷ planners) policy = p.claims policy || is_claimed planners policy

abbrev refuse_unclaimed : List MirrorPolicy → Result (Unit {0})
refuse_unclaimed [] = ok tt
refuse_unclaimed (policy ∷ unclaimed) = raise internal_error

-- A batch whose planner has planned it.
pub record Ready : Type 1 where
  pub planner : PolicyPlanner
  pub plans : planner.Plans

abbrev pub Checked : Type 1
Checked = List AliasTarget × List Ready

-- One batch of the plan phase: `if batch:`
unfoldable pub plan_one : PolicyPlanner → List MirrorPolicy → Io Checked
plan_one planner [] = pure ([], [])
plan_one planner (p ∷ batch) = do
  planned ← planner.plan_batch (p ∷ batch)
  pure (planned.0, record { planner = planner; plans = planned.1 } ∷ [])

unfoldable pub plan_phase : List Batch → Io Checked
plan_phase [] = pure ([], [])
plan_phase (b ∷ batches) = do
  first ← plan_one b.planner b.policies
  rest ← plan_phase batches
  pure (first.0 ++ rest.0, first.1 ++ rest.1)

unfoldable pub apply_phase : List Ready → Io (List PolicyReport)
apply_phase [] = pure []
apply_phase (r ∷ ready) = do
  first ← r.planner.apply_plans r.plans
  rest ← apply_phase ready
  pure (first ++ rest)

abbrev is_ok_status : NodeStatus → Bool
is_ok_status ok_status = true
is_ok_status _ = false

abbrev is_failed_status : NodeStatus → Bool
is_failed_status failed_status = true
is_failed_status _ = false

unfoldable pub run_status : List PolicyReport → NodeStatus
run_status reports =
    if all (λ r. is_ok_status r.status) reports
    then ok_status
    else if all (λ r. is_failed_status r.status) reports
    then failed_status
    else partial_status

unfoldable pub run_report : Bool → List PolicyReport → RunReport
run_report dry_run reports = record {
  dry_run = dry_run;
  status = run_status reports;
  totals = merge_counts (map (λ r. r.totals) reports);
  policies = reports;
}

-- The shard filter, after the collisions of all policies were looked for.
unfoldable pub owned : (String → List ℕ) → ℕ → ℕ → List MirrorPolicy → List MirrorPolicy
owned sha256 shard_index shard_count policies =
    filter (λ p. owns sha256 p.name shard_index shard_count) policies

module _ (sha256 : String → List ℕ) (roster : Roster) (planners : List PolicyPlanner)
    (shard_index shard_count : ℕ) where
  -- Everything before `reporter.run_started`.
  unfoldable pub check_phase : List MirrorPolicy → Io (List Ready)
  check_phase policies = do
    owners ← lift (owners_of roster policies)
    single ← lift (detect_dest_repo_collisions owners)
    claimed ← lift (
        refuse_unclaimed (
          filter (λ p. not (is_claimed planners p))
            (owned sha256 shard_index shard_count policies)))
    checked ← plan_phase (batches_of planners (owned sha256 shard_index shard_count policies))
    distinct ← lift (detect_alias_collisions checked.0)
    pure checked.1

  module _ (settings : Settings) where
    abbrev pub is_dry_run : Bool
    is_dry_run = settings.dry_run_tags || settings.dry_run_deletions

    unfoldable pub reconcile_policies : List MirrorPolicy → Io RunReport
    reconcile_policies policies = do
      ready ← check_phase policies
      started ←
          report (started_run (length (owned sha256 shard_index shard_count policies)) is_dry_run)
      reports ← apply_phase ready
      completed ← report (completed_run (run_report is_dry_run reports))
      pure (run_report is_dry_run reports)

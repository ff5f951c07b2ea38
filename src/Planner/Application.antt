-- ===== src/Planner/Application.antt =====
-- `RegistryPlanner.apply` of knock/use_cases/reconcile_registry.py: the planned policies, each in a
-- `try` of its own.
use houba.Common.{String, Option, none, some, List, [], ◌∷◌, ◌++◌}
use houba.Common.Eq.{string_eq}
use houba.Errors.{Result, ok, raise, ErrorClass, error_of, internal_error, ◌>>=◌ as bind_result}
use houba.IsoTime.{IsoFormat}
use houba.Policy.{Value}
use houba.Report.{
  Operation, TargetReport, PolicyReport, Counts, failed_status, node_status, merge_counts,
}
use houba.Session.{
  Ports, Io, pure, lift, ◌>>=◌, ensure_registry_session, started_policy, completed_policy,
  failed_policy,
}
use houba.Session.Edges.{Edges, attempt, report}
use houba.Apply.{Plan, Settings}
use houba.Apply.Run.{apply_plan}
use houba.Planner.{MirrorPolicy, Planned, source_repo}
use houba.Apply.Stages.{all_operations}

abbrev pub all_variants : List TargetReport → List Operation
all_variants [] = []
all_variants (tgt ∷ targets) = all_operations tgt.variants ++ all_variants targets

abbrev pub all_lifecycle : List TargetReport → List Operation
all_lifecycle [] = []
all_lifecycle (tgt ∷ targets) = tgt.operations ++ all_lifecycle targets

abbrev pub totals_of : List TargetReport → List Counts
totals_of [] = []
totals_of (tgt ∷ targets) = tgt.totals ∷ totals_of targets

-- `Counts()`
abbrev pub no_counts : Counts
no_counts = record {
  imported = 0;
  updated = 0;
  deleted = 0;
  aliased = 0;
  skipped = 0;
  marked = 0;
  attested = 0;
  sbom = 0;
  failed = 0;
}

-- `PolicyReport(...)` after the targets, and in the handler.
unfoldable pub completed_report : String → String → List TargetReport → PolicyReport
completed_report name source targets = record {
  name = name;
  source = source;
  status = node_status (all_variants targets ++ all_lifecycle targets);
  error = none;
  totals = merge_counts (totals_of targets);
  targets = targets;
}

unfoldable pub failed_report : String → String → ErrorClass → PolicyReport
failed_report name source exc = record {
  name = name;
  source = source;
  status = failed_status;
  error = some (error_of exc);
  totals = no_counts;
  targets = [];
}

-- What the `try` leaves: the targets or an exception, and the session set.
abbrev pub Attempted : Type 0
Attempted = Result (List TargetReport) × List String

abbrev pub joined : Result TargetReport → Attempted → Attempted
joined first (rest, logged_in) =
    (bind_result first (λ tgt. bind_result rest (λ targets. ok (tgt ∷ targets))), logged_in)

module _ (ports : Ports) (edges : Edges) (time : IsoFormat) (json_loads : String → Option Value)
    (settings : Settings) where
  -- After a target: the next ones, unless it raised.
  abbrev pub after_target :
      (List String → Io Attempted) → List String → Result TargetReport → Io Attempted
  after_target next now_in (raise exc) = pure (raise exc, now_in)
  after_target next now_in (ok tgt) = do rest ← next now_in; pure (joined (ok tgt) rest)

  -- After the session of a destination: its target, unless the session raised; then the host is
  -- not among those logged into.
  abbrev pub after_session :
      Plan → (List String → Io Attempted) → List String → Result (List String) → Io Attempted
  after_session p next logged_in (raise exc) = pure (raise exc, logged_in)
  after_session p next logged_in (ok now_in) = do
    tgt ← attempt (apply_plan ports edges time json_loads p settings)
    after_target next now_in tgt

  unfoldable pub apply_targets : List Plan → List String → Io Attempted
  apply_targets [] logged_in = pure (ok [], logged_in)
  apply_targets (p ∷ plans) logged_in = do
    session ← attempt (ensure_registry_session ports p.config logged_in)
    after_session p (apply_targets plans) logged_in session

  unfoldable pub conclude : String → String → Result (List TargetReport) → Io PolicyReport
  conclude name source (ok targets) = do
    reported ← report (completed_policy name (merge_counts (totals_of targets)))
    pure (completed_report name source targets)
  conclude name source (raise exc) = do
    reported ← report (failed_policy name (error_of exc))
    pure (failed_report name source exc)

  -- The body of the loop over the planned policies.
  unfoldable pub apply_policy :
      MirrorPolicy → List Plan → List String → Io (PolicyReport × List String)
  apply_policy policy plans logged_in = do
    source_ref ← lift (source_repo policy.spec)
    started ← report (started_policy policy.name source_ref)
    attempted ← apply_targets plans logged_in
    concluded ← conclude policy.name source_ref attempted.0
    pure (concluded, attempted.1)

  unfoldable pub apply_policies : Planned → List String → Io (List PolicyReport)
  apply_policies [] logged_in = pure []
  apply_policies ((policy, plans) ∷ planned) logged_in = do
    first ← apply_policy policy plans logged_in
    rest ← apply_policies planned first.1
    pure (first.0 ∷ rest)

  -- `RegistryPlanner.apply`
  unfoldable pub apply : Option Planned → List String → Io (List PolicyReport)
  apply none logged_in = lift (raise internal_error)
  apply (some planned) logged_in = apply_policies planned logged_in

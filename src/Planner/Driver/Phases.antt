-- ===== src/Planner/Driver/Phases.antt =====
-- What the driver of knock/use_cases/reconcile.py does by its two phases: nothing is written before
-- all checks pass, and every policy gets its report.
use houba.Common.{String, Option, some, ◌≡◌, subst, List, [], ◌∷◌, ◌++◌, map}
use houba.Errors.{ok}
use houba.IsoTime.{IsoFormat}
use houba.Policy.{Value}
use houba.Report.{PolicyReport}
use houba.Session.{History, Ports}
use houba.Session.Edges.{Edges}
use houba.Session.Stages.{Holds, Holds-pure, Holds-bind, Returns}
use houba.Session.Delivers.{Delivers, sequence_inversion}
use houba.Apply.{Settings}
use houba.Planner.{MirrorPolicy, Runtime, Rosters, plan}
use houba.Planner.Application.{apply}
use houba.Planner.Isolation.{apply-reports_each}
use houba.Planner.ReadOnly.{OnlyReads, Holds-plan}
use houba.Planner.Driver.{PolicyPlanner, registry_planner, Batch}

abbrev pub policy_names : List MirrorPolicy → List String
policy_names policies = map (λ p. p.name) policies

abbrev pub report_names : List PolicyReport → List String
report_names reports = map (λ r. r.name) reports

-- What the driver relies on: planning only reads, and a planned batch is reported on as a whole.
pub record IsPlanner (p : PolicyPlanner) : Type 0 where
  pub reads :
      (batch : List MirrorPolicy) (before : History) → Holds (OnlyReads before) (p.plan_batch batch)
  pub delivers :
      (batch : List MirrorPolicy) (h : History) (planned : _)
      → (p.plan_batch batch h).0 ≡ ok planned
      → Delivers (λ reports. report_names reports ≡ policy_names batch) (p.apply_plans planned.1)

pub registry_planner-IsPlanner :
    (runtime : Runtime) (rosters : Rosters) (ports : Ports) (edges : Edges) (time : IsoFormat)
    (json_loads : String → Option Value) (settings : Settings)
    → IsPlanner (registry_planner runtime rosters ports edges time json_loads settings)
registry_planner-IsPlanner runtime rosters ports edges time json_loads settings = record {
  reads = λ batch before.
      Holds-bind _ _ (Holds-plan before runtime rosters ports batch []) (λ planned. Holds-pure _);
  delivers = λ batch h planned e.
      let (out, found, returned) =
        sequence_inversion (plan runtime rosters ports batch []) _ h planned e in
      subst
        (Returns (λ o.
          Delivers (λ reports. report_names reports ≡ policy_names batch)
            (apply ports edges time json_loads settings (some o.1.0) o.1.1)))
        returned
        (record {
          at = λ k.
              apply-reports_each runtime rosters ports batch [] h out ports edges time json_loads
                settings out.2 k found;
        });
}

-- Reports under these names.
abbrev AreNamed : List String → List PolicyReport → Type 0
AreNamed names reports = report_names reports ≡ names

-- The policies of all batches, in the order in which they are applied.
abbrev pub batched : List Batch → List MirrorPolicy
batched [] = []
batched (b ∷ batches) = b.policies ++ batched batches

-- ===== src/Planner/Isolation.antt =====
-- One policy's failure stays its own.
use houba.Common.{String, ◌≡◌, refl, ap, ◌∙◌, subst, Option, some, List, [], ◌∷◌, map, All}
use houba.Collision.{AliasTarget}
use houba.Errors.{Result, ok, raise}
use houba.IsoTime.{IsoFormat}
use houba.Policy.{Value}
use houba.Report.{TargetReport, PolicyReport}
use houba.Session.{History, Io, Ports, lift}
use houba.Session.Edges.{Edges}
use houba.Session.Delivers.{
  Delivers, Delivers-pure, Delivers-lift, Delivers-bind, Delivers-attempt, Delivers-report,
  Anything, sequence_inversion,
}
use houba.Session.Stages.{Returns}
use houba.Apply.{Plan, Settings}
use houba.Planner.{
  MirrorPolicy, Runtime, Rosters, Planned, source_repo, plan_policy, plan_policies, plan,
}
use houba.Planner.Application.{
  after_target, after_session, apply_targets, conclude, apply_policy, apply_policies, apply,
  completed_report, failed_report, Attempted,
}

-- A policy whose source has a repository to read.
abbrev HasSource : MirrorPolicy × List Plan → Type 0
HasSource entry = (src_repo : String) × (source_repo entry.0.spec ≡ ok src_repo)

module _ (runtime : Runtime) (rosters : Rosters) (ports : Ports) where
  plan_policy-HasSource :
      (policy : MirrorPolicy) (logged_in : List String) (h : History)
      (out : List Plan × List String)
      → (plan_policy runtime rosters ports policy logged_in h).0 ≡ ok out
      → HasSource (policy, out.0)
  unfolding plan_policy
  plan_policy-HasSource policy logged_in h out e =
      let (src_repo, found, later) =
        sequence_inversion (lift (source_repo policy.spec)) _ h out e in
      (src_repo, found)

  -- What the plan phase leaves: the policies in their order, each with a source.
  abbrev IsPlanned : List MirrorPolicy → Planned × List String → Type 0
  IsPlanned policies out = (map (λ entry. entry.0) out.0 ≡ policies) × All HasSource out.0

  plan_policies-IsPlanned :
      (policies : List MirrorPolicy) (logged_in : List String) (h : History)
      (out : Planned × List String)
      → (plan_policies runtime rosters ports policies logged_in h).0 ≡ ok out
      → IsPlanned policies out
  unfolding plan_policies
  plan_policies-IsPlanned [] logged_in h out e = subst (Returns (IsPlanned [])) e (refl, tt)
  plan_policies-IsPlanned (policy ∷ policies) logged_in h out e =
      let (first, one, later) = sequence_inversion _ _ h out e in
      let (rest, others, returned) = sequence_inversion _ _ _ out later in
      let planned = plan_policies-IsPlanned policies first.1 _ rest others in
      subst (Returns (IsPlanned (policy ∷ policies))) returned (
        ap (λ ps. policy ∷ ps) planned.0,
        (plan_policy-HasSource policy logged_in h first one, planned.1),
      )

  plan-IsPlanned :
      (policies : List MirrorPolicy) (logged_in : List String) (h : History)
      (out : List AliasTarget × Planned × List String)
      → (plan runtime rosters ports policies logged_in h).0 ≡ ok out
      → IsPlanned policies (out.1, out.2)
  unfolding plan
  plan-IsPlanned policies logged_in h out e =
      let (planned, found, returned) = sequence_inversion _ _ h out e in
      subst (Returns (λ o. IsPlanned policies (o.1, o.2))) returned
        (plan_policies-IsPlanned policies logged_in h planned found)

module _ (ports : Ports) (edges : Edges) (time : IsoFormat) (json_loads : String → Option Value)
    (settings : Settings) where
  Delivers-after_target :
      (next : List String → Io Attempted) (now_in : List String) (first : Result TargetReport)
      → ((l : List String) → Delivers Anything (next l))
      → Delivers Anything (after_target ports edges time json_loads settings next now_in first)
  Delivers-after_target next now_in (raise exc) f = Delivers-pure _ tt
  Delivers-after_target next now_in (ok tgt) f =
      Delivers-bind _ _ (f now_in) (λ rest r. Delivers-pure _ tt)

  Delivers-after_session :
      (p : Plan) (next : List String → Io Attempted) (logged_in : List String)
      (session : Result (List String))
      → ((l : List String) → Delivers Anything (next l))
      → Delivers Anything
          (after_session ports edges time json_loads settings p next logged_in session)
  Delivers-after_session p next logged_in (raise exc) f = Delivers-pure _ tt
  Delivers-after_session p next logged_in (ok now_in) f =
      Delivers-bind _ _ (Delivers-attempt _) (λ first r. Delivers-after_target next now_in first f)

  Delivers-apply_targets :
      (plans : List Plan) (logged_in : List String)
      → Delivers Anything (apply_targets ports edges time json_loads settings plans logged_in)
  unfolding apply_targets
  Delivers-apply_targets [] logged_in = Delivers-pure _ tt
  Delivers-apply_targets (p ∷ plans) logged_in =
      Delivers-bind _ _ (Delivers-attempt _)
        (λ session r. Delivers-after_session p _ logged_in session (Delivers-apply_targets plans))

  Delivers-conclude :
      (name source : String) (targets : Result (List TargetReport))
      → Delivers
          (λ r. r.name ≡ name)
          (conclude ports edges time json_loads settings name source targets)
  unfolding conclude completed_report failed_report
  Delivers-conclude name source (ok targets) =
      Delivers-bind _ _ (Delivers-report _) (λ reported r. Delivers-pure _ refl)
  Delivers-conclude name source (raise exc) =
      Delivers-bind _ _ (Delivers-report _) (λ reported r. Delivers-pure _ refl)

  Delivers-apply_policy :
      (policy : MirrorPolicy) (plans : List Plan) (logged_in : List String)
      → HasSource (policy, plans)
      → Delivers
          (λ o. o.0.name ≡ policy.name)
          (apply_policy ports edges time json_loads settings policy plans logged_in)
  unfolding apply_policy
  Delivers-apply_policy policy plans logged_in source =
      Delivers-bind _ _ (Delivers-lift {Q = Anything} _ source.0 source.1 tt) (λ src_repo r.
        Delivers-bind _ _ (Delivers-report _) (λ started s.
          Delivers-bind _ _ (Delivers-apply_targets plans logged_in) (λ attempted t.
            Delivers-bind _ _ (Delivers-conclude policy.name src_repo attempted.0)
              (λ concluded named. Delivers-pure _ named))))

  abbrev names_of : Planned → List String
  names_of planned = map (λ entry. entry.0.name) planned

  Delivers-apply_policies :
      (planned : Planned) (logged_in : List String)
      → All HasSource planned
      → Delivers
          (λ reports. map (λ r. r.name) reports ≡ names_of planned)
          (apply_policies ports edges time json_loads settings planned logged_in)
  unfolding apply_policies
  Delivers-apply_policies [] logged_in each = Delivers-pure _ refl
  Delivers-apply_policies ((policy, plans) ∷ planned) logged_in each =
      Delivers-bind _ _ (Delivers-apply_policy policy plans logged_in each.0) (λ first named.
        Delivers-bind _ _ (Delivers-apply_policies planned first.1 each.1)
          (λ rest names. Delivers-pure _ cc))

names_of-map :
    (planned : Planned)
    → map (λ entry. entry.0.name) planned ≡ map (λ p. p.name) (map (λ entry. entry.0) planned)
names_of-map [] = refl
names_of-map (entry ∷ planned) = ap (λ names. entry.0.name ∷ names) (names_of-map planned)

-- Once a batch of policies is planned, its application returns one report for each policy, in the
-- order of the batch and under the policy's name, whatever the ports answer and whichever policy
-- fails: neither an exception in a session nor one in a target leaves its policy.
pub apply-reports_each :
    (runtime : Runtime) (rosters : Rosters) (plan_ports : Ports) (policies : List MirrorPolicy)
    (plan_logged_in : List String) (h : History) (out : List AliasTarget × Planned × List String)
    (ports : Ports) (edges : Edges) (time : IsoFormat) (json_loads : String → Option Value)
    (settings : Settings) (logged_in : List String) (k : History)
    → (plan runtime rosters plan_ports policies plan_logged_in h).0 ≡ ok out
    → (reports : List PolicyReport) × ((apply ports edges time json_loads settings
          (some out.1)
          logged_in
          k).0
        ≡ ok reports)
      × (map (λ r. r.name) reports ≡ map (λ p. p.name) policies)
unfolding apply
apply-reports_each runtime rosters plan_ports policies plan_logged_in h out ports edges time
      json_loads settings logged_in k planned =
    let (listed, sourced) =
      plan-IsPlanned runtime rosters plan_ports policies plan_logged_in h out planned in
    let (reports, returned, names) =
      (Delivers-apply_policies ports edges time json_loads settings out.1 logged_in sourced).at k in
    (reports, returned, names ∙ (names_of-map out.1 ∙ ap (map (λ p. p.name)) listed))

-- ===== src/Planner/ReadOnly.antt =====
-- The plan phase of `RegistryPlanner` of knock/use_cases/reconcile_registry.py only reads.
use houba.Common.{String, Option, none, some, List, [], ◌∷◌}
use houba.Config.{RegistryConfig}
use houba.Session.{
  Call, configured, logged_into, listed_repositories, listed_tags, listed_referrers, inspected,
  read_annotations, asked, listed_all_referrers, verified, History, Ports,
}
use houba.Session.Keeps.{KeepsWalk, Keeps-ensure_registry_session}
use houba.Session.Stages.{
  Holds, Holds-pure, Holds-lift, Holds-call, Holds-bind, IsAdded, IsAdded-call,
}
use houba.Planner.{MirrorPolicy, Runtime, Rosters, source_session, plan_policy, plan_policies, plan}

-- A call that changes nothing in a registry: a session or a read.
abbrev pub IsReading : Call → Type 0
IsReading (configured host tls ca) = Unit
IsReading (logged_into host user password tls) = Unit
IsReading (listed_repositories host) = Unit
IsReading (listed_tags repo) = Unit
IsReading (listed_referrers ref type) = Unit
IsReading (inspected ref) = Unit
IsReading (read_annotations ref) = Unit
IsReading (asked query) = Unit
IsReading (listed_all_referrers ref) = Unit
IsReading (verified ref type) = Unit
IsReading _ = ⊥

module _ (before : History) where
  abbrev pub OnlyReads : History → Type 0
  OnlyReads = IsAdded IsReading before

  KeepsWalk-OnlyReads : KeepsWalk OnlyReads
  KeepsWalk-OnlyReads = record {
    configuring = λ host tls ca. IsAdded-call _ tt;
    login = λ host user password tls. IsAdded-call _ tt;
    catalog = λ host. IsAdded-call _ tt;
    tags = λ repo. IsAdded-call _ tt;
  }

  module _ (runtime : Runtime) (rosters : Rosters) (ports : Ports) where
    Holds-source_session :
        (found : Option (String × RegistryConfig)) (logged_in : List String)
        → Holds OnlyReads (source_session runtime rosters ports found logged_in)
    Holds-source_session none logged_in = Holds-pure logged_in
    Holds-source_session (some found) logged_in = record {
      at = Keeps-ensure_registry_session OnlyReads ports KeepsWalk-OnlyReads found.1 logged_in;
    }

    Holds-plan_policy :
        (policy : MirrorPolicy) (logged_in : List String)
        → Holds OnlyReads (plan_policy runtime rosters ports policy logged_in)
    unfolding plan_policy
    Holds-plan_policy policy logged_in = Holds-bind _ _ (Holds-lift _) (λ src_repo.
        Holds-bind _ _ (Holds-source_session _ logged_in) (λ now_in.
          Holds-bind _ _ (Holds-call _ _ (IsAdded-call _ tt)) (λ tags.
            Holds-bind _ _ (Holds-lift _)
              (λ imports. Holds-bind _ _ (Holds-lift _) (λ plans. Holds-pure _)))))

    Holds-plan_policies :
        (policies : List MirrorPolicy) (logged_in : List String)
        → Holds OnlyReads (plan_policies runtime rosters ports policies logged_in)
    unfolding plan_policies
    Holds-plan_policies [] logged_in = Holds-pure _
    Holds-plan_policies (policy ∷ policies) logged_in =
        Holds-bind _ _ (Holds-plan_policy policy logged_in)
          (λ first. Holds-bind _ _ (Holds-plan_policies policies first.1) (λ rest. Holds-pure _))

    pub Holds-plan :
        (policies : List MirrorPolicy) (logged_in : List String)
        → Holds OnlyReads (plan runtime rosters ports policies logged_in)
    unfolding plan
    Holds-plan policies logged_in =
        Holds-bind _ _ (Holds-plan_policies policies logged_in) (λ planned. Holds-pure _)

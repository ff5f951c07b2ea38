-- ===== src/Purge.antt =====
-- knock/domain/purge.py and knock/use_cases/purge.py: the reaper. A message of an error is not
-- kept, only its class and exit code.
pub mod Safety
pub mod DryRun
use houba.Common.{
  ℕ, zero, suc, ◌+◌, ◌*◌, String, Bool, true, false, not, ◌⊎◌, inl, inr, Option, none, some, List,
  [], ◌∷◌, max, if◌then◌else◌,
}
use houba.Common.Int.{ℤ, pos, negsuc, sub_ℕ}
use houba.Common.Dict.{Dict}
use houba.Common.Keys.{◌⊕◌}
use houba.Errors.{ErrorClass, ErrorInfo, error_of}
use houba.IsoTime.{IsoFormat}
use houba.Lifecycle.{pending_deletion_artifact_type, MarkedCandidate, parse_pending_mark}
use houba.Config.{Roster}
use houba.Session.{
  Referrer, UsageQuery, inspected, listed_referrers, asked, deleted_referrer, deleted_tag, Ports,
  Io, Done, pure, perform, try_except, ◌>>=◌, for_each, walk_targets,
}

pub data PurgeDecision : Type 0 where
  purge protect uncertain : PurgeDecision

abbrev pub day : ℕ
day = 86_400_000_000

-- `now - timedelta(days=days)`
unfoldable pub usage_window_start : ℕ → ℤ → ℤ
usage_window_start now (pos days) = sub_ℕ now (days * day)
usage_window_start now (negsuc days) = pos (now + suc days * day)

unfoldable pub decide_purge : Option ℕ → Bool → PurgeDecision
decide_purge last_seen false = uncertain
decide_purge (some t) true = protect
decide_purge none true = purge

pub data PurgeMode : Type 0 where
  apply dry_run : PurgeMode

pub record PurgeOutcome : Type 0 where
  pub image_ref : String
  pub digest : Option String
  pub decision : Option PurgeDecision
  pub reason : String
  pub applied : Bool
  pub error : Option ErrorInfo

pub record PurgeReport : Type 0 where
  pub mode : PurgeMode
  pub outcomes : List PurgeOutcome

abbrev worst_code : List PurgeOutcome → ℕ
worst_code [] = 0
worst_code (o ∷ outcomes) = elim o.error [
  | none ↦ worst_code outcomes
  | some e ↦ max e.exit_code (worst_code outcomes)
]

-- `max(codes) if codes else 0`
unfoldable pub purge_exit_code : PurgeReport → ℕ
purge_exit_code report = worst_code report.outcomes

-- The outcomes that `_process` returns.
abbrev pub failed_to_inspect : String → ErrorClass → PurgeOutcome
failed_to_inspect image_ref exc = record {
  image_ref = image_ref;
  digest = none;
  decision = none;
  reason = "";
  applied = false;
  error = some (error_of exc);
}

abbrev pub decided :
    String → String → PurgeDecision × String → Bool → Option ErrorInfo → PurgeOutcome
decided image_ref digest (decision, reason) applied error = record {
  image_ref = image_ref;
  digest = some digest;
  decision = some decision;
  reason = reason;
  applied = applied;
  error = error;
}

module _ (ports : Ports) where
  -- `digest = registry.inspect(image_ref).digest`, or the outcome to return.
  unfoldable pub inspect_digest : String → Io (PurgeOutcome ⊎ String)
  unfolding try_except ◌>>=◌
  inspect_digest image_ref =
      try_except
        (do
          info ← perform (inspected image_ref) (λ h. ports.inspect h image_ref)
          pure (inr info.digest))
        (λ exc. inl (failed_to_inspect image_ref exc))

  -- The decision and its reason; an oracle that fails leaves it uncertain.
  unfoldable pub judge_usage : UsageQuery → Io (PurgeDecision × String)
  unfolding try_except ◌>>=◌ decide_purge
  judge_usage query =
      try_except
        (do
          observation ← perform (asked query) (λ h. ports.last_prod_usage h query)
          pure (decide_purge observation.last_seen true, observation.detail))
        (λ exc. (decide_purge none false, "usage oracle unavailable"))

  -- The mark goes before the tag.
  unfoldable pub delete_mark_and_tag : String → String → Io Done
  unfolding ◌>>=◌
  delete_mark_and_tag image_ref referrer_ref = do
    mark_gone ← perform (deleted_referrer referrer_ref) (λ h. ports.delete_referrer h referrer_ref)
    perform (deleted_tag image_ref) (λ h. ports.delete_tag h image_ref)

  unfoldable pub delete_marked : String → String → PurgeDecision × String → String → Io PurgeOutcome
  unfolding try_except ◌>>=◌ delete_mark_and_tag
  delete_marked image_ref digest judged referrer_ref =
      try_except
        (do
          both_gone ← delete_mark_and_tag image_ref referrer_ref
          pure (decided image_ref digest judged true none))
        (λ exc. decided image_ref digest judged false (some (error_of exc)))

  abbrev pub act : String → String → String → PurgeMode → PurgeDecision × String → Io PurgeOutcome
  act image_ref digest referrer_ref apply (purge, reason) =
      delete_marked image_ref digest (purge, reason) referrer_ref
  act image_ref digest referrer_ref dry_run (purge, reason) =
      pure (decided image_ref digest (purge, reason) false none)
  act image_ref digest referrer_ref _ judged = pure (decided image_ref digest judged false none)

module _ (time : IsoFormat) (label_prefix : String) (since : ℤ) where
  abbrev pub query_for : String → String → Referrer → UsageQuery
  query_for image_ref digest referrer = record {
    digest = digest;
    image_ref = image_ref;
    identity = (parse_pending_mark time label_prefix image_ref referrer.annotations).identity;
    since = since;
  }

module _ (ports : Ports) (time : IsoFormat) (label_prefix : String) (since : ℤ)
    (mode : PurgeMode) where
  abbrev pub judge_and_act : String → String → Referrer → PurgeOutcome ⊎ String → Io PurgeOutcome
  judge_and_act repo_ref image_ref referrer (inl outcome) = pure outcome
  judge_and_act repo_ref image_ref referrer (inr digest) =
      judge_usage ports (query_for time label_prefix since image_ref digest referrer)
      >>= act ports image_ref digest (repo_ref ⊕ ("@" ⊕ referrer.digest)) mode

  -- `_process`
  unfoldable pub process : String → String → Referrer → Io PurgeOutcome
  unfolding ◌>>=◌ inspect_digest judge_usage delete_marked parse_pending_mark
  process repo_ref image_ref referrer =
      inspect_digest ports image_ref >>= judge_and_act repo_ref image_ref referrer

-- The loop over the marks of an image.
unfoldable pub process_all :
    Ports
    → IsoFormat
    → String
    → ℤ
    → PurgeMode
    → String
    → String
    → List Referrer
    → Io (List PurgeOutcome)
unfolding for_each process ◌>>=◌
process_all ports time label_prefix since mode repo_ref image_ref = for_each λ referrer. do
  outcome ← process ports time label_prefix since mode repo_ref image_ref referrer
  pure (outcome ∷ [])

unfoldable pub purge_image :
    Ports → IsoFormat → String → ℤ → PurgeMode → String → String → Io (List PurgeOutcome)
unfolding process_all ◌>>=◌
purge_image ports time label_prefix since mode repo_ref image_ref = do
  referrers ←
      perform (listed_referrers image_ref pending_deletion_artifact_type)
        (λ h. ports.list_referrers h image_ref pending_deletion_artifact_type)
  process_all ports time label_prefix since mode repo_ref image_ref referrers

unfoldable pub purge_marks :
    Ports → IsoFormat → Roster → Option String → String → ℤ → ℕ → PurgeMode → Io PurgeReport
unfolding walk_targets purge_image usage_window_start ◌>>=◌
purge_marks ports time roster only_registry label_prefix min_idle_days now mode = do
  outcomes ←
      walk_targets ports
        (purge_image ports time label_prefix (usage_window_start now min_idle_days) mode)
        only_registry roster
  pure (record { mode = mode; outcomes = outcomes })

-- ===== src/Purge/DryRun.antt =====
-- A dry run changes nothing.
use houba.Common.{ℕ, String, ◌≡◌, refl, ◌⊎◌, inl, inr, Bool-cases, Option, List, [], ◌∷◌}
use houba.Common.Int.{ℤ}
use houba.Common.Keys.{◌⊕◌}
use houba.Errors.{Result-cases}
use houba.IsoTime.{IsoFormat}
use houba.Lifecycle.{pending_deletion_artifact_type}
use houba.Config.{Roster}
use houba.Session.{
  History, Ports, Referrer, UsageQuery, listed_referrers, deleted_referrer, deleted_tag, perform,
  try_except, continue_with, handle, is_knock_error, ◌>>=◌,
}
use houba.Session.Keeps.{Keeps, Keeps-bind, Keeps-for_each, Keeps-walk_targets, KeepsWalk}
use houba.Purge.{
  dry_run, PurgeDecision, purge, protect, uncertain, PurgeOutcome, inspect_digest, judge_usage,
  query_for, act, judge_and_act, process, process_all, purge_image, purge_marks, usage_window_start,
}

-- The deletions among the calls.
unfoldable pub deletions : History → History
deletions [] = []
deletions (deleted_referrer ref ∷ h) = deleted_referrer ref ∷ deletions h
deletions (deleted_tag ref ∷ h) = deleted_tag ref ∷ deletions h
deletions (_ ∷ h) = deletions h

module _ (before : History) where
  unfoldable pub IsUnchanged : History → Type 0
  unfolding deletions
  IsUnchanged h = deletions h ≡ before

  KeepsWalk-IsUnchanged : KeepsWalk IsUnchanged
  unfolding IsUnchanged
  KeepsWalk-IsUnchanged = record {
    configuring = λ host tls ca h p. p;
    login = λ host user pass tls h p. p;
    catalog = λ host h p. p;
    tags = λ repo h p. p;
  }

  module _ (ports : Ports) where
    inspect_digest-IsUnchanged :
        (image_ref : String) → Keeps IsUnchanged (inspect_digest ports image_ref)
    unfolding inspect_digest try_except ◌>>=◌ continue_with handle IsUnchanged
    inspect_digest-IsUnchanged image_ref h p = elim (Result-cases (ports.inspect h image_ref)) [
      | inl (info, found) ↦ rw found p
      | inr (exc, failed) ↦ elim (Bool-cases (is_knock_error exc)) [
        | inl known ↦ rw (failed, known) p
        | inr unknown ↦ rw (failed, unknown) p
      ]
    ]

    judge_usage-IsUnchanged : (query : UsageQuery) → Keeps IsUnchanged (judge_usage ports query)
    unfolding judge_usage try_except ◌>>=◌ continue_with handle IsUnchanged
    judge_usage-IsUnchanged query h p = elim (Result-cases (ports.last_prod_usage h query)) [
      | inl (observation, answered) ↦ rw answered p
      | inr (exc, failed) ↦ elim (Bool-cases (is_knock_error exc)) [
        | inl known ↦ rw (failed, known) p
        | inr unknown ↦ rw (failed, unknown) p
      ]
    ]

    act-IsUnchanged :
        (image_ref digest referrer_ref : String) (judged : PurgeDecision × String)
        → Keeps IsUnchanged (act ports image_ref digest referrer_ref dry_run judged)
    act-IsUnchanged image_ref digest referrer_ref (purge, reason) h p = p
    act-IsUnchanged image_ref digest referrer_ref (protect, reason) h p = p
    act-IsUnchanged image_ref digest referrer_ref (uncertain, reason) h p = p

    module _ (time : IsoFormat) (label_prefix : String) (since : ℤ) where
      judge_and_act-IsUnchanged :
          (repo_ref image_ref : String) (referrer : Referrer) (found : PurgeOutcome ⊎ String)
          → Keeps IsUnchanged (
              judge_and_act ports time label_prefix since dry_run repo_ref image_ref referrer found)
      judge_and_act-IsUnchanged repo_ref image_ref referrer (inl outcome) = λ h p. p
      judge_and_act-IsUnchanged repo_ref image_ref referrer (inr digest) =
          let query = query_for time label_prefix since image_ref digest referrer in
          Keeps-bind IsUnchanged (judge_usage ports query)
            (act ports image_ref digest (repo_ref ⊕ ("@" ⊕ referrer.digest)) dry_run)
            (judge_usage-IsUnchanged query)
            (act-IsUnchanged image_ref digest (repo_ref ⊕ ("@" ⊕ referrer.digest)))

      process-IsUnchanged :
          (repo_ref image_ref : String) (referrer : Referrer)
          → Keeps IsUnchanged
              (process ports time label_prefix since dry_run repo_ref image_ref referrer)
      unfolding process
      process-IsUnchanged repo_ref image_ref referrer =
          Keeps-bind IsUnchanged (inspect_digest ports image_ref)
            (judge_and_act ports time label_prefix since dry_run repo_ref image_ref referrer)
            (inspect_digest-IsUnchanged image_ref)
            (judge_and_act-IsUnchanged repo_ref image_ref referrer)

      process_all-IsUnchanged :
          (repo_ref image_ref : String) (referrers : List Referrer)
          → Keeps IsUnchanged
              (process_all ports time label_prefix since dry_run repo_ref image_ref referrers)
      unfolding process_all
      process_all-IsUnchanged repo_ref image_ref referrers =
          Keeps-for_each IsUnchanged _ referrers (λ referrer.
            Keeps-bind IsUnchanged _ _ (process-IsUnchanged repo_ref image_ref referrer)
              (λ outcome h p. p))

      purge_image-IsUnchanged :
          (repo_ref image_ref : String)
          → Keeps IsUnchanged (purge_image ports time label_prefix since dry_run repo_ref image_ref)
      unfolding purge_image IsUnchanged
      purge_image-IsUnchanged repo_ref image_ref =
          Keeps-bind IsUnchanged
            (perform (listed_referrers image_ref pending_deletion_artifact_type)
              (λ h. ports.list_referrers h image_ref pending_deletion_artifact_type))
            (process_all ports time label_prefix since dry_run repo_ref image_ref) (λ h p. p)
            (process_all-IsUnchanged repo_ref image_ref)

  purge_marks-IsUnchanged :
      (ports : Ports) (time : IsoFormat) (roster : Roster) (only_registry : Option String)
      (label_prefix : String) (min_idle_days : ℤ) (now : ℕ)
      → Keeps IsUnchanged
          (purge_marks ports time roster only_registry label_prefix min_idle_days now dry_run)
  unfolding purge_marks
  purge_marks-IsUnchanged ports time roster only_registry label_prefix min_idle_days now =
      let since = usage_window_start now min_idle_days in
      Keeps-bind IsUnchanged _ _
        (Keeps-walk_targets IsUnchanged ports KeepsWalk-IsUnchanged
          (purge_image ports time label_prefix since dry_run)
          (purge_image-IsUnchanged ports time label_prefix since) only_registry roster)
        (λ outcomes h p. p)

-- A dry run makes no deletion, whatever the registry and the oracle answer.
pub purge_marks_dry_run :
    (ports : Ports) (time : IsoFormat) (roster : Roster) (only_registry : Option String)
    (label_prefix : String) (min_idle_days : ℤ) (now : ℕ) (h : History)
    → deletions
        (purge_marks ports time roster only_registry label_prefix min_idle_days now dry_run h).1
      ≡ deletions h
unfolding IsUnchanged
purge_marks_dry_run ports time roster only_registry label_prefix min_idle_days now h =
    purge_marks-IsUnchanged (deletions h) ports time roster only_registry label_prefix min_idle_days
      now h refl

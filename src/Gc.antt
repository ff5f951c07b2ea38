-- ===== src/Gc.antt =====
-- knock/use_cases/gc.py: superseded scan results are deleted across the registries.
pub mod Safety
use houba.Common.{
  ℕ, zero, suc, ◌*◌, ◌-◌, String, Bool, true, false, Option, none, some, List, [], ◌∷◌, length, max,
  if◌then◌else◌,
}
use houba.Common.Int.{ℤ, scale, sub_ℕ}
use houba.Common.Keys.{◌⊕◌}
use houba.Errors.{ErrorInfo, error_of, ErrorClass, Result, ok, raise}
use houba.Config.{Roster}
use houba.Purge.{PurgeMode, apply, dry_run, day}
use houba.Scan.Gc.{select_superseded_referrers}
use houba.Session.{
  Referrer, listed_referrers, deleted_referrer, Ports, Io, Done, pure, perform, try_except, ◌>>=◌,
  walk_targets,
}

pub record GcOutcome : Type 0 where
  pub image_ref : String
  pub kept : ℤ
  pub collected : List String
  pub applied : Bool
  pub error : Option ErrorInfo

pub record GcReport : Type 0 where
  pub mode : PurgeMode
  pub outcomes : List GcOutcome

abbrev worst_code : List GcOutcome → ℕ
worst_code [] = 0
worst_code (o ∷ outcomes) = elim o.error [
  | none ↦ worst_code outcomes
  | some e ↦ max e.exit_code (worst_code outcomes)
]

-- `max(codes) if codes else 0`
unfoldable pub gc_exit_code : GcReport → ℕ
gc_exit_code report = worst_code report.outcomes

abbrev pub scan_result_artifact_type : String
scan_result_artifact_type = "application/vnd.knock.scan.result.v1"

abbrev pub failed_to_list : String → ErrorClass → GcOutcome
failed_to_list image_ref exc = record {
  image_ref = image_ref;
  kept = sub_ℕ 0 0;
  collected = [];
  applied = false;
  error = some (error_of exc);
}

module _ (ports : Ports) where
  -- `for digest in collected: registry.delete_referrer(f"{repo_ref}@{digest}")`
  unfoldable pub delete_all : String → List String → Io Done
  delete_all repo_ref [] = pure tt
  delete_all repo_ref (digest ∷ collected) = do
    gone ←
        perform (deleted_referrer (repo_ref ⊕ ("@" ⊕ digest)))
          (λ h. ports.delete_referrer h (repo_ref ⊕ ("@" ⊕ digest)))
    delete_all repo_ref collected

module _ (fromisoformat : String → Option ℕ) (label_prefix : String) (keep older_than : ℤ)
    (now : ℕ) where
  abbrev pub superseded : List Referrer → List String
  superseded referrers =
      select_superseded_referrers fromisoformat referrers keep older_than now label_prefix

  abbrev pub outcome_of : String → List Referrer → Bool → Option ErrorInfo → GcOutcome
  outcome_of image_ref referrers applied error = record {
    image_ref = image_ref;
    kept = sub_ℕ (length referrers) (length (superseded referrers));
    collected = superseded referrers;
    applied = applied;
    error = error;
  }

  module _ (ports : Ports) where
    abbrev pub delete_or_report :
        String → String → List Referrer → PurgeMode → List String → Io GcOutcome
    delete_or_report repo_ref image_ref referrers apply (digest ∷ collected) =
        try_except
          (delete_all ports repo_ref (digest ∷ collected) >>= λ all_gone.
            pure (outcome_of image_ref referrers true none))
          (λ exc. outcome_of image_ref referrers false (some (error_of exc)))
    delete_or_report repo_ref image_ref referrers _ _ =
        pure (outcome_of image_ref referrers false none)

  module _ (ports : Ports) (mode : PurgeMode) where
    -- What follows the listing: the `except` that ends `_process`, or the rest of its body.
    abbrev pub process_listed : String → String → Result (List Referrer) → Io GcOutcome
    process_listed repo_ref image_ref (raise exc) =
        try_except (λ h. (raise exc, h)) (failed_to_list image_ref)
    process_listed repo_ref image_ref (ok referrers) =
        delete_or_report ports repo_ref image_ref referrers mode (superseded referrers)

    -- `_process`
    unfoldable pub process : String → String → Io GcOutcome
    process repo_ref image_ref h =
        process_listed repo_ref image_ref
          (ports.list_referrers h image_ref scan_result_artifact_type)
          (listed_referrers image_ref scan_result_artifact_type ∷ h)

    abbrev pub process_image : String → String → Io (List GcOutcome)
    process_image repo_ref image_ref = process repo_ref image_ref >>= λ outcome. pure (outcome ∷ [])

    unfoldable pub gc_over : Roster → Option String → Io GcReport
    unfolding walk_targets process
    gc_over roster only_registry = do
      outcomes ← walk_targets ports process_image only_registry roster
      pure (record { mode = mode; outcomes = outcomes })

-- `older_than = timedelta(days=older_than_days)`
unfoldable pub gc_referrers :
    (String → Option ℕ)
    → Ports
    → Roster
    → Option String
    → String
    → ℤ
    → ℤ
    → ℕ
    → PurgeMode
    → Io GcReport
unfolding gc_over
gc_referrers fromisoformat ports roster only_registry label_prefix keep older_than_days now mode =
    gc_over fromisoformat label_prefix keep (scale older_than_days day) now ports mode roster
      only_registry

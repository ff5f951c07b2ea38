-- ===== src/Apply/Run.antt =====
-- `_apply_plan` of knock/use_cases/reconcile_registry.py as a whole, without an executor. Its stages
-- are in Apply/Stages; `grace` is the default that the code leaves it at.
pub mod Permitted
pub mod Listed
pub mod Returns
use houba.Common.{
  ℕ, String, Bool, true, false, not, Option, none, some, List, [], ◌∷◌, ◌++◌, filter, if◌then◌else◌,
}
use houba.Common.Int.{ℤ, pos}
use houba.Common.Dict.{Dict, get, keys, has}
use houba.Common.Eq.{elem, string_eq}
use houba.Common.Keys.{◌⊕◌}
use houba.Errors.{ErrorClass, ok, raise}
use houba.IsoTime.{IsoFormat}
use houba.Policy.{Value, DeletionMode, purge, mark}
use houba.Reconcile.{SourceArtifact, VariantReconcile}
use houba.Reconcile.Import.{ImportReconcile, MirrorState, reconcile_import, days}
use houba.Report.{Operation, TargetReport}
use houba.Retention.{resolve_archive}
use houba.Sharding.{resolve_deletion_mode}
use houba.Session.{Referrer, deleted_referrer, Ports, Io, Done, pure, lift, perform, ◌>>=◌}
use houba.Session.Edges.{Edges, rescue, run_stage}
use houba.Apply.{Plan, Settings, require_registry_source}
use houba.Apply.Probe.{
  MirrorProbe, probe_source, probe_mirror, probe_marks, marked_on, selected_tags, is_retention_mark,
}
use houba.Apply.Operations.{DeleteWork, at_digest, do_alias, do_delete, do_mark}
use houba.Apply.Operations.Placing.{do_import, do_sign, do_sbom}
use houba.Apply.Stages.{
  WorkLists, work_of, alias_items, delete_works, Staged, report_variants, target_report,
  versions_of, archive_of,
}

-- `(reason == "retention-excess") != want_retention`, negated.
abbrev pub same_axis : Bool → Bool → Bool
same_axis true b = b
same_axis false b = not b

-- What the run knows before it changes anything.
pub record Known : Type 0 where
  pub source_registry : String
  pub source_repository : String
  pub source : Dict String SourceArtifact
  pub probe : MirrorProbe
  pub marked_referrers : Dict String (List Referrer)

abbrev refs_or_none : Option (List Referrer) → List Referrer
refs_or_none none = []
refs_or_none (some refs) = refs

unfoldable pub effective_mode : Plan → Settings → DeletionMode
effective_mode plan settings =
    resolve_deletion_mode plan.spec.deletion_mode plan.config.deletion_mode settings.deletion_mode

abbrev pub default_grace : ℤ
default_grace = days (pos 7)

module _ (ports : Ports) (edges : Edges) (time : IsoFormat) (json_loads : String → Option Value)
    (plan : Plan) (settings : Settings) where
  abbrev pub clear_mark : Referrer → Io Done
  clear_mark ref =
      rescue
        (perform (deleted_referrer (at_digest plan ref.digest))
          (λ h. ports.delete_referrer h (at_digest plan ref.digest)))
        (λ exc. pure tt)

  -- The marks of one tag on one axis, taken off; a failure is left to the next run.
  unfoldable pub unmark : Bool → String → List Referrer → Io Done
  unmark want_retention out_tag [] = pure tt
  unmark want_retention out_tag (ref ∷ refs) = do
    cleared ←
        if same_axis (is_retention_mark time settings out_tag ref) want_retention
        then clear_mark ref
        else pure tt
    unmark want_retention out_tag refs

  unfoldable pub unmark_all : Bool → Dict String (List Referrer) → List String → Io Done
  unmark_all want_retention marked [] = pure tt
  unmark_all want_retention marked (out_tag ∷ tags) = do
    cleared ← unmark want_retention out_tag (refs_or_none (get out_tag marked))
    unmark_all want_retention marked tags

  -- `if not dry_run_deletions:`
  unfoldable pub auto_unmark : Bool → Dict String (List Referrer) → ImportReconcile → Io Done
  auto_unmark true marked result = pure tt
  auto_unmark false marked result = do
    selection ← unmark_all false marked result.to_unmark
    unmark_all true marked result.to_unmark_retention

  -- Stage 3, for the tags that left the selection.
  unfoldable pub select_stage :
      DeletionMode → Dict String (List Referrer) → List String → Io (List Operation)
  select_stage mark marked to_delete =
      run_stage (do_mark plan ports edges time json_loads settings)
        (delete_works "dropped-from-selection" (filter (λ t. not (has t marked)) to_delete))
  select_stage purge marked to_delete =
      run_stage (do_delete plan ports edges time json_loads settings)
        (delete_works "dropped-from-selection" to_delete)

  unfoldable pub retention_stage : List String → List String → Io (List Operation)
  retention_stage marked_retention to_mark =
      run_stage (do_mark plan ports edges time json_loads settings)
        (delete_works "retention-excess" (filter (λ t. not (elem t marked_retention)) to_mark))

  unfoldable pub apply_work : Known → WorkLists → ImportReconcile → List String → Io TargetReport
  apply_work k work result marked_retention = do
    let versions = versions_of plan.transforms
    import_ops ←
        run_stage
          (do_import plan ports edges time json_loads settings k.source_registry k.source_repository
            versions k.source)
          work.import_items
    sign_ops ←
        run_stage
          (do_sign plan ports edges time json_loads settings k.source_registry k.source_repository
            versions k.source k.probe.mirror k.probe.mirror_digests)
          work.sign_items
    sbom_ops ←
        run_stage
          (do_sbom plan ports edges time json_loads settings k.source_registry k.source_repository
            versions k.source k.probe.mirror_digests)
          work.sbom_items
    alias_ops ←
        run_stage (do_alias plan ports edges time json_loads settings) (alias_items result.variants)
    selection_ops ← select_stage (effective_mode plan settings) k.marked_referrers result.to_delete
    retention_ops ← retention_stage marked_retention result.to_mark_retention
    unmarked ← auto_unmark settings.dry_run_deletions k.marked_referrers result
    variants ←
        report_variants plan k.source
          (record {
            work = work;
            import_ops = import_ops;
            sign_ops = sign_ops;
            sbom_ops = sbom_ops;
            alias_ops = alias_ops;
          })
          (alias_items result.variants) result.variants plan.expanded.variants
    pure (target_report plan.dest_repo variants (selection_ops ++ retention_ops))

  unfoldable pub state_of : Known → MirrorState
  state_of k = record {
    source = k.source;
    mirror = k.probe.mirror;
    now = settings.now;
    grace = default_grace;
    marked_selection = marked_on time settings false k.marked_referrers [];
    marked_retention = marked_on time settings true k.marked_referrers [];
    retention = resolve_archive (archive_of plan.expanded.archive) settings.retention_global;
    transform_versions = versions_of plan.transforms;
  }

  unfoldable pub apply_known : Known → Io TargetReport
  apply_known k = do
    result ← lift (reconcile_import plan.expanded (state_of k))
    work ← lift (work_of k.probe.missing_sbom result.variants plan.expanded.variants)
    apply_work k work result (state_of k).marked_retention

  -- `_apply_plan`
  unfoldable pub apply_plan : Io TargetReport
  apply_plan = do
    (registry, repository) ← lift (require_registry_source plan.spec)
    source ←
        probe_source ports edges time settings (registry ⊕ ("/" ⊕ repository))
          (selected_tags plan.expanded.variants) []
    probe ← probe_mirror ports edges time settings plan.dest_repo
    marked ← probe_marks ports edges time settings plan.dest_repo (keys probe.mirror) []
    apply_known (record {
      source_registry = registry;
      source_repository = repository;
      source = source;
      probe = probe;
      marked_referrers = marked;
    })

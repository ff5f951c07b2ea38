-- ===== src/Apply/Run/Permitted/Whole.antt =====
-- The whole of `_apply_plan`, its reads and its report included.
use houba.Common.{
  String, Bool, true, false, ◌≡◌, refl, sym, ap, ◌∙◌, Option, List, [], ◌∷◌, ◌++◌, arith, not,
  filter,
}
use houba.Common.Dict.{Dict, keys}
use houba.Common.Eq.{elem, elem-filter, string_eq}
use houba.Common.Keys.{◌⊕◌}
use houba.Common.Order.{sorted, elem-sorted}
use houba.Errors.{ok}
use houba.Expand.{VariantPlan}
use houba.IsoTime.{IsoFormat}
use houba.Policy.{Value}
use houba.Reconcile.{SourceArtifact, VariantReconcile}
use houba.Reconcile.Import.{ImportReconcile, MirrorState, desired_names, reconcile_import}
use houba.Reconcile.Deletion.{reconcile_import-IsPlan}
use houba.Scan.Refs.{is_referrers_fallback_tag}
use houba.Session.{History, Ports, Referrer}
use houba.Session.Edges.{Edges}
use houba.Session.Stages.{
  Holds, Holds-pure, Holds-lift, Holds-bind, Holds-bind_lift, Holds-if, Holds-run_stage,
  Holds-for_each, IsAdded, IsAdded-call,
}
use houba.Apply.{Plan, Settings, require_registry_source}
use houba.Apply.Probe.{
  MirrorProbe, probe_source, list_present, need_probe, probe_tag, probe_tags, probe_mirror,
  probe_marks,
}
use houba.Apply.Operations.{AliasWork}
use houba.Apply.Stages.{
  WorkLists, Staged, skip_tag, skip_unchanged, report_variant, report_variants,
}
use houba.Apply.Run.{Known, apply_work, apply_known, apply_plan, effective_mode}
use houba.Apply.Run.Permitted.{IsPermitted}
use houba.Apply.Run.Permitted.Imports.{
  IsSound, Holds-emit_applied, Holds-do_import, Holds-do_sign, Holds-do_sbom,
}
use houba.Apply.Run.Permitted.Lifecycle.{
  Holds-do_alias, Holds-select_stage, Holds-retention_stage, Holds-auto_unmark,
}

module _ (plan : Plan) (settings : Settings) (source_registry source_repository : String)
    (before : History) (ports : Ports) (edges : Edges) (time : IsoFormat)
    (json_loads : String → Option Value) where
  abbrev Sound : History → Type 0
  Sound = IsSound plan settings source_registry source_repository before

  Holds-probe_source :
      (src_repo : String) (tags : List String) (source : Dict String SourceArtifact)
      → Holds Sound (probe_source ports edges time settings src_repo tags source)
  unfolding probe_source IsPermitted
  Holds-probe_source src_repo [] source = Holds-pure source
  Holds-probe_source src_repo (tag ∷ tags) source =
      Holds-bind _ _ (record { at = IsAdded-call _ tt })
        (λ info. Holds-probe_source src_repo tags _)

  Holds-list_present :
      (needed : Bool) (image_ref : String)
      → Holds Sound (list_present ports edges time settings needed image_ref)
  unfolding IsPermitted
  Holds-list_present false image_ref = Holds-pure []
  Holds-list_present true image_ref =
      Holds-bind _ _ (record { at = IsAdded-call _ tt }) (λ referrers. Holds-pure _)

  Holds-probe_tag :
      (dest_repo out_tag : String) (probe : MirrorProbe)
      → Holds Sound (probe_tag ports edges time settings dest_repo out_tag probe)
  unfolding probe_tag IsPermitted
  Holds-probe_tag dest_repo out_tag probe =
      Holds-bind _ _ (record { at = IsAdded-call _ tt })
        (λ info.
          Holds-bind _ _ (Holds-list_present (need_probe ports edges time settings) _)
            (λ present. Holds-bind _ _ (Holds-lift _) (λ absent. Holds-pure _)))

  Holds-probe_tags :
      (dest_repo : String) (tags : List String) (probe : MirrorProbe)
      → Holds Sound (probe_tags ports edges time settings dest_repo tags probe)
  unfolding probe_tags
  Holds-probe_tags dest_repo [] probe = Holds-pure probe
  Holds-probe_tags dest_repo (tag ∷ tags) probe =
      Holds-bind _ _
        (Holds-if (is_referrers_fallback_tag tag) _ _ (Holds-pure probe)
          (Holds-probe_tag dest_repo tag probe))
        (λ next. Holds-probe_tags dest_repo tags next)

  Holds-probe_mirror :
      (dest_repo : String) → Holds Sound (probe_mirror ports edges time settings dest_repo)
  unfolding probe_mirror IsPermitted
  Holds-probe_mirror dest_repo =
      Holds-bind _ _ (record { at = IsAdded-call _ tt }) (λ tags. Holds-probe_tags dest_repo tags _)

  Holds-probe_marks :
      (dest_repo : String) (tags : List String) (marked : Dict String (List Referrer))
      → Holds Sound (probe_marks ports edges time settings dest_repo tags marked)
  unfolding probe_marks IsPermitted
  Holds-probe_marks dest_repo [] marked = Holds-pure marked
  Holds-probe_marks dest_repo (tag ∷ tags) marked =
      Holds-bind _ _ (record { at = IsAdded-call _ tt })
        (λ refs. Holds-probe_marks dest_repo tags _)

  module _ (source : Dict String SourceArtifact) where
    Holds-skip_tag :
        (variant suffix tag : String) (changed : Bool)
        → Holds Sound (skip_tag plan source variant suffix tag changed)
    unfolding skip_tag
    Holds-skip_tag variant suffix tag true = Holds-pure []
    Holds-skip_tag variant suffix tag false = Holds-bind _ _ (Holds-lift _) (λ src.
        Holds-bind _ _
          (Holds-emit_applied plan settings source_registry source_repository before _ variant)
          (λ emitted. Holds-pure _))

    Holds-report_variant :
        (s : Staged) (aliases : List AliasWork) (vr : VariantReconcile) (vplan : VariantPlan)
        → Holds Sound (report_variant plan source s aliases vr vplan)
    unfolding report_variant skip_unchanged
    Holds-report_variant s aliases vr vplan =
        Holds-bind _ _
          (Holds-for_each _ vplan.tags (λ tag. Holds-skip_tag vr.variant vplan.suffix tag (
            elem (tag ⊕ vplan.suffix)
              (vr.to_import ++ (vr.to_update ++ (vr.to_sign ++ vr.to_sbom))))))
          (λ skips. Holds-pure _)

    Holds-report_variants :
        (s : Staged) (aliases : List AliasWork) (vrs : List VariantReconcile)
        (vplans : List VariantPlan)
        → Holds Sound (report_variants plan source s aliases vrs vplans)
    unfolding report_variants
    Holds-report_variants s aliases [] [] = Holds-pure []
    Holds-report_variants s aliases [] (vplan ∷ vplans) = Holds-lift _
    Holds-report_variants s aliases (vr ∷ vrs) [] = Holds-lift _
    Holds-report_variants s aliases (vr ∷ vrs) (vplan ∷ vplans) =
        Holds-bind _ _ (Holds-report_variant s aliases vr vplan) (λ first.
          Holds-bind _ _ (Holds-report_variants s aliases vrs vplans) (λ rest. Holds-pure _))

  -- Only what is no output is in the list of deletions.
  to_delete-dropped :
      (s : MirrorState) (result : ImportReconcile)
      → reconcile_import plan.expanded s ≡ ok result
      → (t : String) → elem t result.to_delete ≡ true
      → elem t (desired_names plan.expanded.variants []) ≡ false
  to_delete-dropped s result h t e =
      let desired = desired_names plan.expanded.variants [] in
      let listed : elem t (sorted (filter (λ t. not (elem t desired)) (keys s.mirror))) ≡ true =
        ap (elem t) (sym (reconcile_import-IsPlan plan.expanded s h).deletes) ∙ e in
      ground (
        arith,
        elem-sorted t (filter (λ t. not (elem t desired)) (keys s.mirror)),
        elem-filter t (λ t. not (elem t desired)) (keys s.mirror),
      )

  Holds-apply_work :
      (k : Known) (work : WorkLists) (result : ImportReconcile) (marked_retention : List String)
      → k.source_registry ≡ source_registry
      → k.source_repository ≡ source_repository
      → ((t : String)
          → elem t result.to_delete ≡ true
          → elem t (desired_names plan.expanded.variants []) ≡ false)
      → Holds Sound
          (apply_work ports edges time json_loads plan settings k work result marked_retention)
  unfolding apply_work
  Holds-apply_work k work result marked_retention e f dropped =
      rw (e, f)
        (Holds-bind _ _
          (Holds-run_stage _ _ (
            Holds-do_import plan settings source_registry source_repository before ports edges time
              json_loads _ _))
          (λ import_ops.
            Holds-bind _ _
              (Holds-run_stage _ _ (
                Holds-do_sign plan settings source_registry source_repository before ports edges
                  time json_loads _ _ _ _))
              (λ sign_ops.
                Holds-bind _ _
                  (Holds-run_stage _ _ (
                    Holds-do_sbom plan settings source_registry source_repository before ports edges
                      time json_loads _ _ _))
                  (λ sbom_ops.
                    Holds-bind _ _
                      (Holds-run_stage _ _ (
                        Holds-do_alias plan settings source_registry source_repository before ports
                          edges time json_loads))
                      (λ alias_ops.
                        Holds-bind _ _
                          (Holds-select_stage plan settings source_registry source_repository before
                            ports edges time json_loads (effective_mode plan settings)
                            k.marked_referrers result.to_delete refl dropped)
                          (λ selection_ops.
                            Holds-bind _ _
                              (Holds-retention_stage plan settings source_registry source_repository
                                before ports edges time json_loads marked_retention
                                result.to_mark_retention)
                              (λ retention_ops.
                                Holds-bind _ _
                                  (Holds-auto_unmark plan settings source_registry source_repository
                                    before ports edges time json_loads settings.dry_run_deletions
                                    k.marked_referrers result refl)
                                  (λ unmarked.
                                    Holds-bind _ _
                                      (Holds-report_variants k.source _ _ result.variants
                                        plan.expanded.variants)
                                      (λ variants. Holds-pure _)))))))))

  Holds-apply_known :
      (k : Known)
      → k.source_registry ≡ source_registry
      → k.source_repository ≡ source_repository
      → Holds Sound (apply_known ports edges time json_loads plan settings k)
  unfolding apply_known
  Holds-apply_known k e f = Holds-bind_lift _ _ (λ result planned.
      Holds-bind_lift _ _
        (λ work listed. Holds-apply_work k work result _ e f (to_delete-dropped _ result planned)))

  Holds-apply_plan :
      require_registry_source plan.spec ≡ ok (source_registry, source_repository)
      → Holds Sound (apply_plan ports edges time json_loads plan settings)
  unfolding apply_plan
  Holds-apply_plan h = rw h (
      Holds-bind_lift _ _ (λ origin same.
        let named : (source_registry, source_repository) ≡ origin = cc in
        Holds-bind _ _ (Holds-probe_source _ _ _) (λ source.
          Holds-bind _ _ (Holds-probe_mirror plan.dest_repo) (λ probe.
            Holds-bind _ _ (Holds-probe_marks plan.dest_repo (keys probe.mirror) []) (λ marked.
              Holds-apply_known _ (ap (λ o. o.0) (sym named)) (ap (λ o. o.1) (sym named)))))))

-- Whatever the ports answer, and however they fail, the calls that a run adds to the history are
-- permitted by its settings. A dry run of tags places, builds, stamps, describes and signs nothing,
-- a dry run of deletions deletes nothing and marks no tag. What is copied comes from the source by a
-- digest or from a tag of the destination; every stamp, SBOM and signature goes to the
-- destination, and a signature is about the digest that it is attached to and needs an attestor. A
-- tag is deleted only where the mode is `purge` and no output of the import has the name.
pub apply_plan-IsPermitted :
    (plan : Plan) (settings : Settings) (source_registry source_repository : String) (ports : Ports)
    (edges : Edges) (time : IsoFormat) (json_loads : String → Option Value) (h : History)
    → require_registry_source plan.spec ≡ ok (source_registry, source_repository)
    → IsAdded
        (IsPermitted plan settings (source_registry ⊕ ("/" ⊕ source_repository)))
        h
        (apply_plan ports edges time json_loads plan settings h).1
apply_plan-IsPermitted plan settings source_registry source_repository ports edges time json_loads h
      e =
    (Holds-apply_plan plan settings source_registry source_repository h ports edges time json_loads
        e).at
      h (record { new = []; calls = refl; each = tt })

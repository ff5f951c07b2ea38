-- ===== src/Apply/Run/Permitted/Lifecycle.antt =====
-- The stages that follow the imports: aliases, deletions, marks and the marks that are taken off.
use houba.Common.{String, Bool, true, false, ◌≡◌, refl, inr, Option, none, List, [], ◌∷◌, arith}
use houba.Common.Text.{eq_iff}
use houba.Common.Dict.{Dict}
use houba.Common.Eq.{elem, string_eq}
use houba.IsoTime.{IsoFormat}
use houba.Policy.{Value, DeletionMode, purge, mark}
use houba.Reconcile.Import.{ImportReconcile, desired_names}
use houba.Session.{History, Ports, Referrer, for_each}
use houba.Session.Edges.{Edges, run_stage}
use houba.Session.Stages.{
  Holds, Holds-pure, Holds-bind, Holds-rescue, Holds-if, Holds-run_stage, IsAdded-call,
}
use houba.Apply.{Plan, Settings}
use houba.Apply.Probe.{is_retention_mark}
use houba.Apply.Operations.{
  AliasWork, DeleteWork, alias_body, do_alias, delete_body, do_delete, mark_body, do_mark,
  put_referrer, copy,
}
use houba.Apply.Stages.{delete_works}
use houba.Apply.Run.{
  unmark, unmark_all, auto_unmark, effective_mode, select_stage, retention_stage, same_axis,
}
use houba.Apply.Run.Permitted.{IsPermitted}
use houba.Apply.Run.Permitted.Imports.{IsSound, Holds-run_operation}

module _ (plan : Plan) (settings : Settings) (source_registry source_repository : String)
    (before : History) (ports : Ports) (edges : Edges) (time : IsoFormat)
    (json_loads : String → Option Value) where
  abbrev Sound : History → Type 0
  Sound = IsSound plan settings source_registry source_repository before

  -- A tag that no output of the import has.
  abbrev IsDropped : String → Type 0
  IsDropped tag = elem tag (desired_names plan.expanded.variants []) ≡ false

  Holds-alias_body :
      (dry_run : Bool) (work : AliasWork)
      → settings.dry_run_tags ≡ dry_run
      → Holds Sound (alias_body plan ports edges time json_loads settings dry_run work)
  unfolding alias_body copy IsPermitted
  Holds-alias_body true work w = Holds-pure none
  Holds-alias_body false work w =
      Holds-bind _ _
        (record { at = IsAdded-call _ (w, inr (work.target, refl), (work.alias, refl)) })
        (λ placed. Holds-pure none)

  pub Holds-do_alias :
      (work : AliasWork) → Holds Sound (do_alias plan ports edges time json_loads settings work)
  unfolding do_alias
  Holds-do_alias work =
      Holds-run_operation plan settings source_registry source_repository before _ _ work.variant
        (Holds-alias_body settings.dry_run_tags work refl)

  Holds-delete_body :
      (dry_run : Bool) (work : DeleteWork)
      → settings.dry_run_deletions ≡ dry_run
      → effective_mode plan settings ≡ purge
      → IsDropped work.out_tag
      → Holds Sound (delete_body plan ports edges time json_loads settings dry_run work)
  unfolding delete_body IsPermitted
  Holds-delete_body true work w m d = Holds-pure none
  Holds-delete_body false work w m d =
      Holds-bind _ _ (record { at = IsAdded-call _ (w, m, work.out_tag, refl, d) })
        (λ gone. Holds-pure none)

  Holds-do_delete :
      (work : DeleteWork)
      → effective_mode plan settings ≡ purge
      → IsDropped work.out_tag
      → Holds Sound (do_delete plan ports edges time json_loads settings work)
  unfolding do_delete
  Holds-do_delete work m d =
      Holds-run_operation plan settings source_registry source_repository before _ _ ""
        (Holds-delete_body settings.dry_run_deletions work refl m d)

  Holds-mark_body :
      (dry_run : Bool) (work : DeleteWork)
      → settings.dry_run_deletions ≡ dry_run
      → Holds Sound (mark_body plan ports edges time json_loads settings dry_run work)
  unfolding mark_body put_referrer IsPermitted
  Holds-mark_body true work w = Holds-pure none
  Holds-mark_body false work w =
      Holds-bind _ _ (record { at = IsAdded-call _ (inr (w, (work.out_tag, refl), refl)) })
        (λ referrer. Holds-pure none)

  Holds-do_mark :
      (work : DeleteWork) → Holds Sound (do_mark plan ports edges time json_loads settings work)
  unfolding do_mark
  Holds-do_mark work =
      Holds-run_operation plan settings source_registry source_repository before _ _ ""
        (Holds-mark_body settings.dry_run_deletions work refl)

  -- A stage over tags that were all dropped.
  Holds-delete_stage :
      (tags : List String)
      → effective_mode plan settings ≡ purge
      → ((t : String) → elem t tags ≡ true → IsDropped t)
      → Holds Sound (
          run_stage
            (do_delete plan ports edges time json_loads settings)
            (delete_works "dropped-from-selection" tags))
  unfolding run_stage delete_works for_each elem
  Holds-delete_stage [] m f = Holds-pure []
  Holds-delete_stage (t ∷ tags) m f =
      Holds-bind _ _
        (Holds-bind _ _ (Holds-do_delete _ m (f t (ground (arith, eq_iff t t))))
          (λ op. Holds-pure _))
        (λ first.
          Holds-bind _ _ (Holds-delete_stage tags m (λ s e. f s (ground arith)))
            (λ rest. Holds-pure _))

  pub Holds-select_stage :
      (mode : DeletionMode) (marked : Dict String (List Referrer)) (to_delete : List String)
      → effective_mode plan settings ≡ mode
      → ((t : String) → elem t to_delete ≡ true → IsDropped t)
      → Holds Sound (select_stage ports edges time json_loads plan settings mode marked to_delete)
  unfolding select_stage
  Holds-select_stage purge marked to_delete m f = Holds-delete_stage to_delete m f
  Holds-select_stage mark marked to_delete m f = Holds-run_stage _ _ Holds-do_mark

  pub Holds-retention_stage :
      (marked_retention to_mark : List String)
      → Holds Sound
          (retention_stage ports edges time json_loads plan settings marked_retention to_mark)
  unfolding retention_stage
  Holds-retention_stage marked_retention to_mark = Holds-run_stage _ _ Holds-do_mark

  Holds-unmark :
      (want : Bool) (out_tag : String) (refs : List Referrer)
      → settings.dry_run_deletions ≡ false
      → Holds Sound (unmark ports edges time json_loads plan settings want out_tag refs)
  unfolding unmark IsPermitted
  Holds-unmark want out_tag [] w = Holds-pure tt
  Holds-unmark want out_tag (ref ∷ refs) w =
      Holds-bind _ _
        (Holds-if (same_axis (is_retention_mark time settings out_tag ref) want) _ _
          (Holds-rescue _ _ (record { at = IsAdded-call _ (w, (ref.digest, refl)) })
            (λ exc. Holds-pure tt))
          (Holds-pure tt))
        (λ cleared. Holds-unmark want out_tag refs w)

  Holds-unmark_all :
      (want : Bool) (marked : Dict String (List Referrer)) (tags : List String)
      → settings.dry_run_deletions ≡ false
      → Holds Sound (unmark_all ports edges time json_loads plan settings want marked tags)
  unfolding unmark_all
  Holds-unmark_all want marked [] w = Holds-pure tt
  Holds-unmark_all want marked (out_tag ∷ tags) w =
      Holds-bind _ _ (Holds-unmark want out_tag _ w)
        (λ cleared. Holds-unmark_all want marked tags w)

  pub Holds-auto_unmark :
      (dry_run : Bool) (marked : Dict String (List Referrer)) (result : ImportReconcile)
      → settings.dry_run_deletions ≡ dry_run
      → Holds Sound (auto_unmark ports edges time json_loads plan settings dry_run marked result)
  unfolding auto_unmark
  Holds-auto_unmark true marked result w = Holds-pure tt
  Holds-auto_unmark false marked result w =
      Holds-bind _ _ (Holds-unmark_all false marked result.to_unmark w)
        (λ selection. Holds-unmark_all true marked result.to_unmark_retention w)

-- ===== src/Apply/Stages.antt =====
-- The stages of `_apply_plan` of knock/use_cases/reconcile_registry.py, between two barriers each,
-- and the report that is put together from what they return.
use houba.Common.{String, Bool, true, false, Option, none, some, List, [], ◌∷◌, ◌++◌, if◌then◌else◌}
use houba.Common.Text.{◌==◌}
use houba.Common.Dict.{Dict, get, put}
use houba.Common.Eq.{elem, string_eq}
use houba.Common.Keys.{◌⊕◌}
use houba.Errors.{Result, ok, raise, value_error, ◌>>=◌ as bind_result}
use houba.Expand.{VariantPlan}
use houba.Reconcile.{SourceArtifact, VariantReconcile}
use houba.Report.{
  imported, updated, skipped, Operation, VariantReport, TargetReport, Counts, node_status,
  counts_of, merge_counts,
}
use houba.Session.{Io, pure, lift, for_each, ◌>>=◌}
use houba.Policy.{ArchiveBlock}
use houba.Retention.{Archive}
use houba.Transforms.Resolve.{ResolvedTransform}
use houba.Apply.{Plan}
use houba.Apply.Operations.{
  ImportWork, SignWork, SbomWork, AliasWork, DeleteWork, index, emit_applied,
}

pub record WorkLists : Type 0 where
  pub import_items : List ImportWork
  pub sign_items : List SignWork
  pub sbom_items : List SbomWork

-- `{t + vplan.suffix: t for t in vplan.tags}`
unfoldable pub out_to_src : String → List String → Dict String String → Dict String String
out_to_src suffix [] d = d
out_to_src suffix (t ∷ tags) d = out_to_src suffix tags (put (t ⊕ suffix) t d)

module _ (vr : VariantReconcile) (vplan : VariantPlan) where
  abbrev pub sources : Dict String String
  sources = out_to_src vplan.suffix vplan.tags []

  unfoldable pub import_works : List String → Result (List ImportWork)
  import_works [] = ok []
  import_works (out_tag ∷ tags) = bind_result (index (get out_tag sources)) (λ src_tag.
      bind_result (import_works tags) (λ works. ok (
        record {
          variant = vr.variant;
          vplan = vplan;
          out_tag = out_tag;
          src_tag = src_tag;
          kind = if elem out_tag vr.to_import then imported else updated;
        }
        ∷ works)))

  unfoldable pub sign_works : List String → Result (List SignWork)
  sign_works [] = ok []
  sign_works (out_tag ∷ tags) = bind_result (index (get out_tag sources)) (λ src_tag.
      bind_result (sign_works tags) (λ works. ok (
        record { variant = vr.variant; vplan = vplan; out_tag = out_tag; src_tag = src_tag }
        ∷ works)))

  unfoldable pub sbom_works : Dict String (List String) → List String → Result (List SbomWork)
  sbom_works missing_sbom [] = ok []
  sbom_works missing_sbom (out_tag ∷ tags) = bind_result (index (get out_tag sources)) (λ src_tag.
      bind_result (index (get out_tag missing_sbom)) (λ formats.
        bind_result (sbom_works missing_sbom tags) (λ works. ok (
          record {
            variant = vr.variant;
            vplan = vplan;
            out_tag = out_tag;
            src_tag = src_tag;
            formats = formats;
          }
          ∷ works))))

-- The loop over the zipped variants; `strict=True` refuses lists of different lengths.
unfoldable pub work_of :
    Dict String (List String) → List VariantReconcile → List VariantPlan → Result WorkLists
work_of missing_sbom [] [] = ok (record { import_items = []; sign_items = []; sbom_items = [] })
work_of missing_sbom (vr ∷ vrs) (vplan ∷ vplans) =
    bind_result (import_works vr vplan (vr.to_import ++ vr.to_update)) (λ imports.
      bind_result (sign_works vr vplan vr.to_sign) (λ signs.
        bind_result (sbom_works vr vplan missing_sbom vr.to_sbom) (λ sboms.
          bind_result (work_of missing_sbom vrs vplans) (λ rest. ok (record {
            import_items = imports ++ rest.import_items;
            sign_items = signs ++ rest.sign_items;
            sbom_items = sboms ++ rest.sbom_items;
          })))))
work_of missing_sbom _ _ = raise value_error

abbrev alias_works : String → Dict String String → List AliasWork
alias_works variant [] = []
alias_works variant ((alias, target) ∷ aliases) =
    record { variant = variant; alias = alias; target = target } ∷ alias_works variant aliases

unfoldable pub alias_items : List VariantReconcile → List AliasWork
alias_items [] = []
alias_items (vr ∷ vrs) = alias_works vr.variant vr.aliases ++ alias_items vrs

unfoldable pub delete_works : String → List String → List DeleteWork
delete_works reason [] = []
delete_works reason (t ∷ tags) = record { out_tag = t; reason = reason } ∷ delete_works reason tags

-- The operations of one variant, from the zipped items and results.
abbrev pub ops_of {ℓ} :
    {W : Type ℓ} → (W → String) → String → List W → List Operation → List Operation
ops_of variant_of name (w ∷ items) (op ∷ ops) =
    let rest = ops_of variant_of name items ops in if variant_of w == name then op ∷ rest else rest
ops_of variant_of name _ _ = []

abbrev skipped_operation : String → String → String → Operation
skipped_operation out_tag src_tag digest = record {
  kind = skipped;
  out_tag = out_tag;
  src_tag = some src_tag;
  digest = some digest;
  applied = false;
  error = none;
  transform_steps = none;
  out_digest = none;
}

-- What the stages before the report have done.
pub record Staged : Type 0 where
  pub work : WorkLists
  pub import_ops : List Operation
  pub sign_ops : List Operation
  pub sbom_ops : List Operation
  pub alias_ops : List Operation

abbrev pub ops_before_skips : Staged → List AliasWork → String → List Operation
ops_before_skips s aliases name =
    ops_of (λ w. w.variant) name s.work.import_items s.import_ops
    ++ (ops_of (λ w. w.variant) name s.work.sign_items s.sign_ops
        ++ ops_of (λ w. w.variant) name s.work.sbom_items s.sbom_ops)

module _ (plan : Plan) (source : Dict String SourceArtifact) where
  -- A tag that nothing changed is reported as skipped.
  unfoldable pub skip_tag : String → String → String → Bool → Io (List Operation)
  skip_tag variant suffix tag true = pure []
  skip_tag variant suffix tag false = do
    src ← lift (index (get tag source))
    emitted ← emit_applied plan (skipped_operation (tag ⊕ suffix) tag src.digest) variant
    pure (skipped_operation (tag ⊕ suffix) tag src.digest ∷ [])

  unfoldable pub skip_unchanged : String → String → List String → List String → Io (List Operation)
  skip_unchanged variant suffix changed tags =
      for_each (λ tag. skip_tag variant suffix tag (elem (tag ⊕ suffix) changed)) tags

  unfoldable pub report_variant :
      Staged → List AliasWork → VariantReconcile → VariantPlan → Io VariantReport
  report_variant s aliases vr vplan = do
    skips ←
        skip_unchanged vr.variant vplan.suffix
          (vr.to_import ++ (vr.to_update ++ (vr.to_sign ++ vr.to_sbom))) vplan.tags
    let ops : List Operation =
        ops_before_skips s aliases vr.variant
        ++ (skips ++ ops_of (λ w. w.variant) vr.variant aliases s.alias_ops)
    pure (record {
      name = vr.variant;
      suffix = vplan.suffix;
      status = node_status ops;
      totals = counts_of ops;
      operations = ops;
    })

  unfoldable pub report_variants :
      Staged → List AliasWork → List VariantReconcile → List VariantPlan → Io (List VariantReport)
  report_variants s aliases [] [] = pure []
  report_variants s aliases (vr ∷ vrs) (vplan ∷ vplans) = do
    first ← report_variant s aliases vr vplan
    rest ← report_variants s aliases vrs vplans
    pure (first ∷ rest)
  report_variants s aliases _ _ = lift (raise value_error)

abbrev pub all_operations : List VariantReport → List Operation
all_operations [] = []
all_operations (v ∷ variants) = v.operations ++ all_operations variants

abbrev all_totals : List VariantReport → List Counts → List Counts
all_totals [] last = last
all_totals (v ∷ variants) last = v.totals ∷ all_totals variants last

unfoldable pub target_report : String → List VariantReport → List Operation → TargetReport
target_report dest_repo variants lifecycle_ops = record {
  dest_repo = dest_repo;
  status = node_status (all_operations variants ++ lifecycle_ops);
  variants = variants;
  operations = lifecycle_ops;
  totals = merge_counts (all_totals variants (counts_of lifecycle_ops ∷ []));
}

-- `{name: rt.version for name, rt in plan.transforms.items()}`
abbrev pub versions_of : Dict String ResolvedTransform → Dict String (Option String)
versions_of [] = []
versions_of ((name, rt) ∷ transforms) = (name, some rt.version) ∷ versions_of transforms

abbrev pub archive_of : Option ArchiveBlock → Option Archive
archive_of none = none
archive_of (some block) = some block.archive

-- ===== src/Apply/Operations.antt =====
-- The operations inside `_apply_plan` of knock/use_cases/reconcile_registry.py. The lookup
-- `source[w.src_tag]` stands before the `try`: in the code it is repeated in the handler, so that
-- its `KeyError` always leaves the operation. Those that place, stamp and sign are in
-- Apply/Operations/Placing.
pub mod Placing
use houba.Common.{String, Bool, true, false, not, Option, none, some, List, [], ◌∷◌, map}
use houba.Common.Dict.{Dict, get}
use houba.Common.Eq.{string_eq}
use houba.Common.Keys.{◌⊕◌}
use houba.Errors.{ErrorClass, ErrorInfo, error_of, Result, ok, raise, key_error, other_error}
use houba.Attestation.{
  Statement, build_transform_statement, build_sbom_statement, build_sbom_annotations,
}
use houba.Expand.{VariantPlan}
use houba.IsoTime.{IsoFormat}
use houba.Lifecycle.{pending_deletion_artifact_type, build_pending_deletion_annotations}
use houba.Policy.{Value, TransformStep}
use houba.Reconcile.{SourceArtifact, MirrorArtifact}
use houba.Reconcile.Import.{version_of}
use houba.Report.{OperationKind, deleted, aliased, marked, attested, sbom, Operation}
use houba.Session.{
  copied, annotated, put_referrer_on, built, generated_sboms, attested_ref, deleted_tag,
  applied_operation, failed_operation, OperationEvent, NewReferrer, BuildRequest, Ports, Io, Done,
  pure, throw, lift, perform, ◌>>=◌,
}
use houba.Session.Edges.{Edges, SbomDocument, report, rescue}
use houba.Stamp.{build_stamp_annotations}
use houba.Transforms.{render}
use houba.Apply.{Plan, Settings, artifact_type_text}

pub record ImportWork : Type 0 where
  pub variant : String
  pub vplan : VariantPlan
  pub out_tag : String
  pub src_tag : String
  pub kind : OperationKind

pub record SignWork : Type 0 where
  pub variant : String
  pub vplan : VariantPlan
  pub out_tag : String
  pub src_tag : String

pub record SbomWork : Type 0 where
  pub variant : String
  pub vplan : VariantPlan
  pub out_tag : String
  pub src_tag : String
  pub formats : List String

pub record AliasWork : Type 0 where
  pub variant : String
  pub alias : String
  pub target : String

pub record DeleteWork : Type 0 where
  pub out_tag : String
  pub reason : String

-- `d[k]`
abbrev pub index {ℓ} : {V : Type ℓ} → Option V → Result V
index none = raise key_error
index (some value) = ok value

-- `[s.name for s in …] or None`
abbrev pub names_or_none : List TransformStep → Option (List String)
names_or_none [] = none
names_or_none (s ∷ steps) = some (map (λ t. t.name) (s ∷ steps))

-- An operation that failed, and its event, which has neither the steps nor the new digest.
abbrev pub failed_with : Operation → ErrorClass → Operation
failed_with op exc = record op { applied = false; error = some (error_of exc); out_digest = none }

abbrev pub event_of : String → String → String → Operation → OperationEvent
event_of policy dest_repo variant op = record {
  policy = policy;
  dest_repo = dest_repo;
  variant = variant;
  kind = op.kind;
  out_tag = op.out_tag;
  src_tag = op.src_tag;
  digest = op.digest;
  applied = op.applied;
  transform_steps = op.transform_steps;
  out_digest = op.out_digest;
}

module _ (plan : Plan) where
  -- `f"{plan.dest_repo}:{tag}"` and `f"{plan.dest_repo}@{digest}"`
  abbrev pub at_tag : String → String
  at_tag tag = plan.dest_repo ⊕ (":" ⊕ tag)

  abbrev pub at_digest : String → String
  at_digest digest = plan.dest_repo ⊕ ("@" ⊕ digest)

  unfoldable pub emit_applied : Operation → String → Io Done
  emit_applied op variant =
      report (applied_operation (event_of plan.policy_name plan.dest_repo variant op))

  unfoldable pub emit_failed : Operation → String → ErrorInfo → Io Done
  emit_failed op variant info = report (
      failed_operation
        (event_of plan.policy_name plan.dest_repo variant
          (record op { applied = false; transform_steps = none; out_digest = none }))
        info)

  -- What all operations share: the body gives the digest that it made, the operation is reported,
  -- and whatever is raised on the way makes it a failed one.
  unfoldable pub run_operation : Io (Option String) → Operation → String → Io Operation
  run_operation body op variant =
      rescue
        (do
          out_digest ← body
          emitted ← emit_applied (record op { out_digest = out_digest }) variant
          pure (record op { out_digest = out_digest }))
        (λ exc. do
          emitted ← emit_failed (failed_with op exc) variant (error_of exc)
          pure (failed_with op exc))

  module _ (ports : Ports) (edges : Edges) (time : IsoFormat) (json_loads : String → Option Value)
      (settings : Settings) where
    -- `registry.put_referrer`, `attestor.attest`, `registry.copy`
    unfoldable pub put_referrer : String → NewReferrer → Io String
    put_referrer subject new =
        perform (put_referrer_on subject new) (λ h. edges.put_referrer h subject new)

    unfoldable pub copy : String → String → Io Done
    copy src dst = perform (copied src dst) (λ h. edges.copy h src dst)

    abbrev pub on_tag : OperationKind → String → Option String → Bool → Operation
    on_tag kind out_tag src_tag dry_run = record {
      kind = kind;
      out_tag = out_tag;
      src_tag = src_tag;
      digest = none;
      applied = not dry_run;
      error = none;
      transform_steps = none;
      out_digest = none;
    }

    unfoldable pub alias_body : Bool → AliasWork → Io (Option String)
    alias_body true w = pure none
    alias_body false w = do placed ← copy (at_tag w.target) (at_tag w.alias); pure none

    -- `_do_alias`
    unfoldable pub do_alias : AliasWork → Io Operation
    do_alias w =
        run_operation (alias_body settings.dry_run_tags w)
          (on_tag aliased w.alias (some w.target) settings.dry_run_tags) w.variant

    unfoldable pub delete_body : Bool → DeleteWork → Io (Option String)
    delete_body true w = pure none
    delete_body false w = do
      gone ← perform (deleted_tag (at_tag w.out_tag)) (λ h. ports.delete_tag h (at_tag w.out_tag))
      pure none

    -- `_do_delete`
    unfoldable pub do_delete : DeleteWork → Io Operation
    do_delete w =
        run_operation (delete_body settings.dry_run_deletions w)
          (on_tag deleted w.out_tag none settings.dry_run_deletions) ""

    unfoldable pub mark_body : Bool → DeleteWork → Io (Option String)
    mark_body true w = pure none
    mark_body false w = do
      referrer ← put_referrer (at_tag w.out_tag) (record {
        artifact_type = pending_deletion_artifact_type;
        annotations =
            build_pending_deletion_annotations time settings.label_prefix settings.now w.reason
              (record {
                policy = plan.policy_name;
                import_name = plan.expanded.name;
                variant = "";
              });
        blob = "";
        media_type = none;
      })
      pure none

    -- `_do_mark`
    unfoldable pub do_mark : DeleteWork → Io Operation
    do_mark w =
        run_operation (mark_body settings.dry_run_deletions w)
          (on_tag marked w.out_tag none settings.dry_run_deletions) ""

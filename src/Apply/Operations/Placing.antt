-- ===== src/Apply/Operations/Placing.antt =====
-- What `_apply_plan` of knock/use_cases/reconcile_registry.py does to place, stamp, describe and sign:
-- `_attach_sbom`, `_attest`, `_do_import`, `_do_sign` and `_do_sbom`.
use houba.Common.{String, Bool, true, false, not, Option, none, some, List, [], ◌∷◌, map}
use houba.Common.Dict.{Dict, get}
use houba.Common.Eq.{string_eq}
use houba.Common.Keys.{◌⊕◌}
use houba.Errors.{other_error}
use houba.Attestation.{
  Statement, build_transform_statement, build_sbom_statement, build_sbom_annotations,
}
use houba.Expand.{VariantPlan}
use houba.IsoTime.{IsoFormat}
use houba.Policy.{Value, TransformStep}
use houba.Reconcile.{SourceArtifact, MirrorArtifact}
use houba.Reconcile.Import.{version_of}
use houba.Report.{OperationKind, attested, sbom, Operation}
use houba.Session.{
  annotated, built, generated_sboms, attested_ref, BuildRequest, Ports, Io, Done, pure, throw, lift,
  perform, ◌>>=◌,
}
use houba.Session.Edges.{Edges, SbomDocument}
use houba.Stamp.{build_stamp_annotations}
use houba.Transforms.{render}
use houba.Apply.{Plan, Settings, artifact_type_text}
use houba.Apply.Operations.{
  ImportWork, SignWork, SbomWork, index, names_or_none, at_tag, at_digest, run_operation,
  put_referrer, copy,
}

module _ (plan : Plan) (ports : Ports) (edges : Edges) (time : IsoFormat)
    (json_loads : String → Option Value) (settings : Settings) where
  unfoldable pub attest_statement : String → Statement → Io String
  attest_statement subject statement =
      perform (attested_ref subject statement) (λ h. edges.attest h subject statement)

  -- `if attestor is not None:` around the statement of an SBOM.
  unfoldable pub sign_sbom : String → String → SbomDocument → Bool → Io Done
  sign_sbom out_digest out_tag d false = pure tt
  sign_sbom out_digest out_tag d true = do
    statement ←
        lift (build_sbom_statement json_loads (at_tag plan out_tag) out_digest d.format d.content)
    signed ← attest_statement (at_digest plan out_digest) statement
    pure tt

  unfoldable pub attach_documents : String → String → List SbomDocument → Io Done
  attach_documents out_digest out_tag [] = pure tt
  attach_documents out_digest out_tag (d ∷ documents) = do
    attached ←
        put_referrer plan ports edges time json_loads settings (at_digest plan out_digest) (record {
          artifact_type = d.media_type;
          annotations =
              build_sbom_annotations settings.label_prefix out_digest d.format "syft" d.tool_version
                (time.isoformat settings.now);
          blob = d.content;
          media_type = some d.media_type;
        })
    signed ← sign_sbom out_digest out_tag d settings.attestor
    attach_documents out_digest out_tag documents

  -- `_attach_sbom`
  unfoldable pub attach_sbom : String → String → List String → Bool → Io Done
  attach_sbom out_digest out_tag formats false = throw other_error
  attach_sbom out_digest out_tag formats true = do
    documents ←
        perform (generated_sboms (at_digest plan out_digest) formats)
          (λ h. edges.generate h (at_digest plan out_digest) formats)
    attach_documents out_digest out_tag documents

  -- `if sbom_formats and out_digest is not None:`
  unfoldable pub attach_if_wanted : String → String → List String → Io Done
  attach_if_wanted out_digest out_tag [] = pure tt
  attach_if_wanted out_digest out_tag (f ∷ formats) =
      attach_sbom out_digest out_tag (f ∷ formats) settings.sbom_generator

  module _ (source_registry source_repository : String)
      (transform_versions : Dict String (Option String)) where
    abbrev pub src_repo : String
    src_repo = source_registry ⊕ ("/" ⊕ source_repository)

    abbrev pub src_at : String → String
    src_at digest = src_repo ⊕ ("@" ⊕ digest)

    abbrev text_or_empty : Option String → String
    text_or_empty none = ""
    text_or_empty (some s) = s

    abbrev is_transformed : List TransformStep → Bool
    is_transformed [] = false
    is_transformed (s ∷ steps) = true

    -- `_attest`
    unfoldable pub attest : Bool → String → String → VariantPlan → String → String → Io Done
    attest false out_digest variant vplan out_tag source_digest = throw other_error
    attest true out_digest variant vplan out_tag source_digest = do
      signed ← attest_statement (at_digest plan out_digest) (
          build_transform_statement (at_tag plan out_tag) out_digest (record {
            policy = plan.policy_name;
            import_name = plan.expanded.name;
            variant = variant;
            transformed = is_transformed vplan.transform;
            source = src_repo;
            source_digest = source_digest;
            builder_id = settings.attest_builder_id;
            created = time.isoformat settings.now;
            transform_version = text_or_empty (version_of (get vplan.name transform_versions));
            steps = map (λ s. record { name = s.name; params = s.params }) vplan.transform;
          }))
      pure tt

    -- `if attestor is not None and out_digest is not None:`
    unfoldable pub attest_if_wanted : Bool → String → ImportWork → String → Io Done
    attest_if_wanted false out_digest w source_digest = pure tt
    attest_if_wanted true out_digest w source_digest =
        attest true out_digest w.variant w.vplan w.out_tag source_digest

    -- A rebuild or a copy: the reference to stamp and the tag to publish the result to.
    unfoldable pub place :
        ImportWork → SourceArtifact → List TransformStep → Io (String × Option String)
    place w src [] = do
      placed ←
          copy plan ports edges time json_loads settings (src_at src.digest) (at_tag plan w.out_tag)
      pure (at_digest plan src.digest, some (at_tag plan w.out_tag))
    place w src (s ∷ steps) = do
      resolved ← lift (index (get w.vplan.name plan.transforms))
      rendered ← lift (render resolved.resolved_steps (src_at src.digest))
      let request : BuildRequest = record {
        rendered = rendered;
        image_ref = at_tag plan w.out_tag;
        platform = settings.build_platform;
        provenance = settings.attestor;
        tls_verify = plan.config.tls_verify;
      }
      pushed ← perform (built request) (λ h. edges.build_and_push h request)
      pure (at_tag plan w.out_tag, none)

    unfoldable pub stamp_for : ImportWork → SourceArtifact → Dict String String
    stamp_for w src =
        build_stamp_annotations time.isoformat settings.label_prefix
          (record {
            source_registry = source_registry;
            source_repository = source_repository;
            source_tag = w.src_tag;
            source_digest = src.digest;
            source_revision = src.revision;
          })
          settings.now plan.expanded.vendor
          (record {
            owners = plan.expanded.owners;
            artifact_type = artifact_type_text plan.spec.artifact_type;
            policy = plan.policy_name;
            import_name = plan.expanded.name;
            variant = w.variant;
          })
          (record {
            transform_steps = names_or_none w.vplan.transform;
            transform_version_value = version_of (get w.vplan.name transform_versions);
          })

    -- `if not dry_run_tags:` of `_do_import`: place, stamp, describe, sign.
    unfoldable pub import_body : Bool → ImportWork → SourceArtifact → Io (Option String)
    import_body true w src = pure none
    import_body false w src = do
      (stamp_ref, publish_as) ← place w src w.vplan.transform
      out_digest ←
          perform (annotated stamp_ref (stamp_for w src) publish_as)
            (λ h. edges.annotate h stamp_ref (stamp_for w src) publish_as)
      described ← attach_if_wanted out_digest w.out_tag settings.sbom_formats
      signed ← attest_if_wanted settings.attestor out_digest w src.digest
      pure (some out_digest)

    unfoldable pub import_operation : ImportWork → SourceArtifact → Operation
    import_operation w src = record {
      kind = w.kind;
      out_tag = w.out_tag;
      src_tag = some w.src_tag;
      digest = some src.digest;
      applied = not settings.dry_run_tags;
      error = none;
      transform_steps = names_or_none w.vplan.transform;
      out_digest = none;
    }

    -- `_do_import`
    unfoldable pub do_import : Dict String SourceArtifact → ImportWork → Io Operation
    do_import source w = do
      src ← lift (index (get w.src_tag source))
      run_operation plan (import_body settings.dry_run_tags w src) (import_operation w src)
          w.variant

    abbrev pub backfilled : OperationKind → String → String → SourceArtifact → Operation
    backfilled kind out_tag src_tag src = record {
      kind = kind;
      out_tag = out_tag;
      src_tag = some src_tag;
      digest = some src.digest;
      applied = not settings.dry_run_tags;
      error = none;
      transform_steps = none;
      out_digest = none;
    }

    unfoldable pub sign_body :
        Bool → Dict String MirrorArtifact → Dict String String → SignWork → Io (Option String)
    sign_body true mirror mirror_digests w = pure none
    sign_body false mirror mirror_digests w = do
      out_digest ← lift (index (get w.out_tag mirror_digests))
      mirrored ← lift (index (get w.out_tag mirror))
      signed ← attest settings.attestor out_digest w.variant w.vplan w.out_tag mirrored.base_digest
      pure (some out_digest)

    -- `_do_sign`
    unfoldable pub do_sign :
        Dict String SourceArtifact
        → Dict String MirrorArtifact
        → Dict String String
        → SignWork
        → Io Operation
    do_sign source mirror mirror_digests w = do
      src ← lift (index (get w.src_tag source))
      run_operation plan (sign_body settings.dry_run_tags mirror mirror_digests w)
          (backfilled attested w.out_tag w.src_tag src) w.variant

    unfoldable pub sbom_body : Bool → Dict String String → SbomWork → Io (Option String)
    sbom_body true mirror_digests w = pure none
    sbom_body false mirror_digests w = do
      out_digest ← lift (index (get w.out_tag mirror_digests))
      attached ← attach_sbom out_digest w.out_tag w.formats settings.sbom_generator
      pure (some out_digest)

    -- `_do_sbom`
    unfoldable pub do_sbom :
        Dict String SourceArtifact → Dict String String → SbomWork → Io Operation
    do_sbom source mirror_digests w = do
      src ← lift (index (get w.src_tag source))
      run_operation plan (sbom_body settings.dry_run_tags mirror_digests w)
          (backfilled sbom w.out_tag w.src_tag src) w.variant

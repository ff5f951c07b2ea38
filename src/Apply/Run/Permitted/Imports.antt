-- ===== src/Apply/Run/Permitted/Imports.antt =====
-- The stages that place and describe: imports, signatures and SBOMs.
use houba.Common.{
  String, Bool, true, false, ◌≡◌, refl, sym, ap, inl, Option, none, some, List, [], ◌∷◌,
}
use houba.Common.Dict.{Dict}
use houba.Common.Keys.{◌⊕◌}
use houba.Errors.{ErrorInfo, Result, ok, raise, other_error, bind_inversion}
use houba.Attestation.{
  Statement, subject_digest_of, build_transform_statement, build_sbom_statement,
  sbom_predicate_type, sbom_predicate, or_value_error,
}
use houba.Expand.{VariantPlan}
use houba.IsoTime.{IsoFormat}
use houba.Policy.{Value, TransformStep}
use houba.Reconcile.{SourceArtifact, MirrorArtifact}
use houba.Report.{Operation}
use houba.Session.{
  Call, History, Ports, Io, applied_operation, failed_operation, attested_ref, perform,
  generated_sboms,
}
use houba.Session.Edges.{Edges, SbomDocument}
use houba.Session.Stages.{
  Holds, Holds-pure, Holds-lift, Holds-call, Holds-bind, Holds-bind_lift, Holds-rescue, Gives,
  Gives-bind, Gives-pure, Holds-bind_given, IsAdded, IsAdded-call,
}
use houba.Apply.{Plan, Settings}
use houba.Apply.Operations.{
  ImportWork, SignWork, SbomWork, event_of, emit_applied, emit_failed, run_operation, at_digest,
  put_referrer, copy,
}
use houba.Apply.Operations.Placing.{
  sign_sbom, attach_documents, attach_sbom, attach_if_wanted, attest, attest_if_wanted, place,
  import_body, do_import, sign_body, do_sign, sbom_body, do_sbom, attest_statement,
}
use houba.Apply.Run.Permitted.{IsPermitted, IsStamped}

module _ (plan : Plan) (settings : Settings) (source_registry source_repository : String)
    (before : History) where
  abbrev pub IsSound : History → Type 0
  IsSound = IsAdded (IsPermitted plan settings (source_registry ⊕ ("/" ⊕ source_repository))) before

  pub Holds-permitted {ℓ} :
      {A : Type ℓ} (call : Call) (answer : History → Result A)
      → IsPermitted plan settings (source_registry ⊕ ("/" ⊕ source_repository)) call
      → Holds IsSound (perform call answer)
  Holds-permitted call answer q = Holds-call call answer (IsAdded-call call q)

  pub Holds-emit_applied :
      (op : Operation) (variant : String) → Holds IsSound (emit_applied plan op variant)
  unfolding emit_applied IsPermitted
  Holds-emit_applied op variant =
      Holds-permitted (applied_operation (event_of plan.policy_name plan.dest_repo variant op))
        (λ h. ok tt) tt

  Holds-emit_failed :
      (op : Operation) (variant : String) (info : ErrorInfo)
      → Holds IsSound (emit_failed plan op variant info)
  unfolding emit_failed IsPermitted
  Holds-emit_failed op variant info =
      Holds-permitted
        (failed_operation
          (event_of plan.policy_name plan.dest_repo variant
            (record op { applied = false; transform_steps = none; out_digest = none }))
          info)
        (λ h. ok tt) tt

  pub Holds-run_operation :
      (body : Io (Option String)) (op : Operation) (variant : String)
      → Holds IsSound body
      → Holds IsSound (run_operation plan body op variant)
  unfolding run_operation
  Holds-run_operation body op variant b =
      Holds-rescue _ _
        (Holds-bind _ _ b
          (λ out_digest. Holds-bind _ _ (Holds-emit_applied _ variant) (λ emitted. Holds-pure _)))
        (λ exc. Holds-bind _ _ (Holds-emit_failed _ variant _) (λ emitted. Holds-pure _))

  module _ (ports : Ports) (edges : Edges) (time : IsoFormat)
      (json_loads : String → Option Value) where
    Holds-attest_statement :
        (digest : String) (statement : Statement)
        → settings.dry_run_tags ≡ false
        → settings.attestor ≡ true
        → statement.subject_digest ≡ subject_digest_of digest
        → Holds IsSound (
            attest_statement plan ports edges time json_loads settings
              (at_digest plan digest)
              statement)
    unfolding attest_statement IsPermitted
    Holds-attest_statement digest statement w s about =
        Holds-permitted (attested_ref (at_digest plan digest) statement)
          (λ h. edges.attest h (at_digest plan digest) statement) (w, s, (digest, refl, about))

    build_sbom_statement-about :
        (subject_name digest fmt content : String) (statement : Statement)
        → build_sbom_statement json_loads subject_name digest fmt content ≡ ok statement
        → statement.subject_digest ≡ subject_digest_of digest
    unfolding build_sbom_statement
    build_sbom_statement-about subject_name digest fmt content statement h =
        let typed = bind_inversion (sbom_predicate_type fmt) _ h in
        let read = bind_inversion (or_value_error (json_loads content)) _ typed.2 in
        let same : record {
          subject_name = subject_name;
          subject_digest = subject_digest_of digest;
          predicate_type = typed.0;
          predicate = sbom_predicate read.0;
        }
            ≡ statement =
          cc in
        ap (λ x. x.subject_digest) (sym same)

    Holds-sign_sbom :
        (out_digest out_tag : String) (d : SbomDocument) (signing : Bool)
        → settings.dry_run_tags ≡ false
        → settings.attestor ≡ signing
        → Holds IsSound
            (sign_sbom plan ports edges time json_loads settings out_digest out_tag d signing)
    unfolding sign_sbom
    Holds-sign_sbom out_digest out_tag d false w s = Holds-pure tt
    Holds-sign_sbom out_digest out_tag d true w s = Holds-bind_lift _ _ (λ statement made.
        Holds-bind _ _
          (Holds-attest_statement out_digest statement w s
            (build_sbom_statement-about _ out_digest d.format d.content statement made))
          (λ signed. Holds-pure tt))

    Holds-attach_documents :
        (out_digest out_tag : String) (documents : List SbomDocument)
        → settings.dry_run_tags ≡ false
        → Holds IsSound (
            attach_documents plan ports edges time json_loads settings out_digest out_tag documents)
    unfolding attach_documents put_referrer IsPermitted
    Holds-attach_documents out_digest out_tag [] w = Holds-pure tt
    Holds-attach_documents out_digest out_tag (d ∷ documents) w =
        Holds-bind _ _ (record { at = IsAdded-call _ (inl (w, (out_digest, refl))) })
          (λ attached.
            Holds-bind _ _ (Holds-sign_sbom out_digest out_tag d settings.attestor w refl)
              (λ signed. Holds-attach_documents out_digest out_tag documents w))

    Holds-attach_sbom :
        (out_digest out_tag : String) (formats : List String) (wired : Bool)
        → settings.dry_run_tags ≡ false
        → Holds IsSound
            (attach_sbom plan ports edges time json_loads settings out_digest out_tag formats wired)
    unfolding attach_sbom IsPermitted
    Holds-attach_sbom out_digest out_tag formats false w = Holds-lift (raise other_error)
    Holds-attach_sbom out_digest out_tag formats true w =
        Holds-bind _ _
          (Holds-permitted (generated_sboms (at_digest plan out_digest) formats)
            (λ h. edges.generate h (at_digest plan out_digest) formats) (w, (out_digest, refl)))
          (λ documents. Holds-attach_documents out_digest out_tag documents w)

    Holds-attach_if_wanted :
        (out_digest out_tag : String) (formats : List String)
        → settings.dry_run_tags ≡ false
        → Holds IsSound
            (attach_if_wanted plan ports edges time json_loads settings out_digest out_tag formats)
    unfolding attach_if_wanted
    Holds-attach_if_wanted out_digest out_tag [] w = Holds-pure tt
    Holds-attach_if_wanted out_digest out_tag (f ∷ formats) w =
        Holds-attach_sbom out_digest out_tag (f ∷ formats) settings.sbom_generator w

    module _ (versions : Dict String (Option String)) where
      Holds-attest :
          (signing : Bool) (out_digest variant : String) (vplan : VariantPlan)
          (out_tag source_digest : String)
          → settings.dry_run_tags ≡ false
          → settings.attestor ≡ signing
          → Holds IsSound (
              attest plan ports edges time json_loads settings source_registry source_repository
                versions signing out_digest variant vplan out_tag source_digest)
      unfolding attest build_transform_statement
      Holds-attest false out_digest variant vplan out_tag source_digest w s =
          Holds-lift (raise other_error)
      Holds-attest true out_digest variant vplan out_tag source_digest w s =
          Holds-bind _ _ (Holds-attest_statement out_digest _ w s refl) (λ signed. Holds-pure tt)

      Holds-attest_if_wanted :
          (signing : Bool) (out_digest : String) (work : ImportWork) (source_digest : String)
          → settings.dry_run_tags ≡ false
          → settings.attestor ≡ signing
          → Holds IsSound (
              attest_if_wanted plan ports edges time json_loads settings source_registry
                source_repository versions signing out_digest work source_digest)
      unfolding attest_if_wanted
      Holds-attest_if_wanted false out_digest work source_digest w s = Holds-pure tt
      Holds-attest_if_wanted true out_digest work source_digest w s =
          Holds-attest true out_digest work.variant work.vplan work.out_tag source_digest w s

      Gives-place :
          (work : ImportWork) (src : SourceArtifact) (steps : List TransformStep)
          → settings.dry_run_tags ≡ false
          → Gives IsSound
              (λ (p : String × Option String).
                IsStamped plan settings (source_registry ⊕ ("/" ⊕ source_repository)) p.0 p.1)
              (place plan ports edges time json_loads settings source_registry source_repository
                versions work src steps)
      unfolding place copy IsPermitted
      Gives-place work src [] w =
          Gives-bind _ _
            (record { at = IsAdded-call _ (w, inl (src.digest, refl), (work.out_tag, refl)) })
            (λ placed. Gives-pure _ ((src.digest, refl), (work.out_tag, refl)))
      Gives-place work src (s ∷ steps) w = Gives-bind _ _ (Holds-lift _) (λ resolved.
          Gives-bind _ _ (Holds-lift _) (λ rendered.
            Gives-bind _ _ (record { at = IsAdded-call _ (w, (work.out_tag, refl)) })
              (λ pushed. Gives-pure _ (work.out_tag, refl))))

      Holds-import_body :
          (dry_run : Bool) (work : ImportWork) (src : SourceArtifact)
          → settings.dry_run_tags ≡ dry_run
          → Holds IsSound (
              import_body plan ports edges time json_loads settings source_registry
                source_repository versions dry_run work src)
      unfolding import_body IsPermitted
      Holds-import_body true work src w = Holds-pure none
      Holds-import_body false work src w =
          Holds-bind_given _ _ (Gives-place work src work.vplan.transform w) (λ p stamped.
            Holds-bind _ _ (record { at = IsAdded-call _ (w, stamped) })
              (λ out_digest.
                Holds-bind _ _
                  (Holds-attach_if_wanted out_digest work.out_tag settings.sbom_formats w)
                  (λ described.
                    Holds-bind _ _
                      (Holds-attest_if_wanted settings.attestor out_digest work src.digest w refl)
                      (λ signed. Holds-pure (some out_digest)))))

      pub Holds-do_import :
          (source : Dict String SourceArtifact) (work : ImportWork)
          → Holds IsSound (
              do_import plan ports edges time json_loads settings source_registry source_repository
                versions source work)
      unfolding do_import
      Holds-do_import source work = Holds-bind _ _ (Holds-lift _) (λ src.
          Holds-run_operation _ _ work.variant
            (Holds-import_body settings.dry_run_tags work src refl))

      Holds-sign_body :
          (dry_run : Bool) (mirror : Dict String MirrorArtifact) (digests : Dict String String)
          (work : SignWork)
          → settings.dry_run_tags ≡ dry_run
          → Holds IsSound (
              sign_body plan ports edges time json_loads settings source_registry source_repository
                versions dry_run mirror digests work)
      unfolding sign_body
      Holds-sign_body true mirror digests work w = Holds-pure none
      Holds-sign_body false mirror digests work w = Holds-bind _ _ (Holds-lift _) (λ out_digest.
          Holds-bind _ _ (Holds-lift _) (λ mirrored.
            Holds-bind _ _
              (Holds-attest settings.attestor out_digest work.variant work.vplan work.out_tag
                mirrored.base_digest w refl)
              (λ signed. Holds-pure (some out_digest))))

      pub Holds-do_sign :
          (source : Dict String SourceArtifact) (mirror : Dict String MirrorArtifact)
          (digests : Dict String String) (work : SignWork)
          → Holds IsSound (
              do_sign plan ports edges time json_loads settings source_registry source_repository
                versions source mirror digests work)
      unfolding do_sign
      Holds-do_sign source mirror digests work = Holds-bind _ _ (Holds-lift _) (λ src.
          Holds-run_operation _ _ work.variant
            (Holds-sign_body settings.dry_run_tags mirror digests work refl))

      Holds-sbom_body :
          (dry_run : Bool) (digests : Dict String String) (work : SbomWork)
          → settings.dry_run_tags ≡ dry_run
          → Holds IsSound (
              sbom_body plan ports edges time json_loads settings source_registry source_repository
                versions dry_run digests work)
      unfolding sbom_body
      Holds-sbom_body true digests work w = Holds-pure none
      Holds-sbom_body false digests work w = Holds-bind _ _ (Holds-lift _) (λ out_digest.
          Holds-bind _ _
            (Holds-attach_sbom out_digest work.out_tag work.formats settings.sbom_generator w)
            (λ attached. Holds-pure (some out_digest)))

      pub Holds-do_sbom :
          (source : Dict String SourceArtifact) (digests : Dict String String) (work : SbomWork)
          → Holds IsSound (
              do_sbom plan ports edges time json_loads settings source_registry source_repository
                versions source digests work)
      unfolding do_sbom
      Holds-do_sbom source digests work = Holds-bind _ _ (Holds-lift _) (λ src.
          Holds-run_operation _ _ work.variant
            (Holds-sbom_body settings.dry_run_tags digests work refl))

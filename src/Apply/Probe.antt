-- ===== src/Apply/Probe.antt =====
-- The reads at the head of `_apply_plan` of knock/use_cases/reconcile_registry.py: the source
-- artifacts, the mirror with its coverage, and the pending-deletion marks by their axis.
use houba.Common.{
  String, Bool, true, false, not, ◌||◌, Option, none, some, List, [], ◌∷◌, map, if◌then◌else◌,
}
use houba.Common.Chars.{is_empty}
use houba.Common.Text.{◌==◌}
use houba.Common.Dict.{Dict, put}
use houba.Common.Eq.{elem, add, add_all, string_eq}
use houba.Common.Keys.{◌⊕◌}
use houba.Common.Order.{sorted}
use houba.Errors.{Result, ok, ◌>>=◌ as bind_result}
use houba.Attestation.{media_type_for, cosign_attestation_artifact_type}
use houba.Expand.{VariantPlan}
use houba.IsoTime.{IsoFormat}
use houba.Lifecycle.{pending_deletion_artifact_type, parse_pending_mark}
use houba.Reconcile.{SourceArtifact, MirrorArtifact}
use houba.Scan.Refs.{is_referrers_fallback_tag}
use houba.Session.{
  inspected, listed_tags, listed_referrers, listed_all_referrers, ImageInfo, Referrer, Ports, Io,
  pure, lift, perform, ◌>>=◌,
}
use houba.Session.Edges.{Edges}
use houba.Apply.{Settings, to_source_artifact, to_mirror_artifact}

-- `sorted({tag for v in plan.expanded.variants for tag in v.tags})`
unfoldable pub all_tags : List VariantPlan → List String → List String
all_tags [] tags = tags
all_tags (v ∷ variants) tags = all_tags variants (add_all v.tags tags)

unfoldable pub selected_tags : List VariantPlan → List String
selected_tags variants = sorted (all_tags variants [])

-- What the walk over the mirror fills.
pub record MirrorProbe : Type 0 where
  pub mirror : Dict String MirrorArtifact
  pub mirror_digests : Dict String String
  pub missing_sbom : Dict String (List String)

-- The configured formats without a referrer.
unfoldable pub absent_formats : List String → List String → Result (List String)
absent_formats [] present = ok []
absent_formats (fmt ∷ formats) present = bind_result (media_type_for fmt) (λ media.
    bind_result (absent_formats formats present)
      (λ absent. ok (if elem media present then absent else fmt ∷ absent)))

abbrev note_missing : String → List String → Dict String (List String) → Dict String (List String)
note_missing out_tag [] missing = missing
note_missing out_tag (f ∷ absent) missing = put out_tag (f ∷ absent) missing

-- `if ma is not None:`
abbrev pub note_artifact :
    String → ImageInfo → List String → Option MirrorArtifact → MirrorProbe → MirrorProbe
note_artifact out_tag info absent none probe = probe
note_artifact out_tag info absent (some ma) probe = record {
  mirror = put out_tag ma probe.mirror;
  mirror_digests = put out_tag info.digest probe.mirror_digests;
  missing_sbom = note_missing out_tag absent probe.missing_sbom;
}

abbrev has_any : List String → Bool
has_any [] = false
has_any (f ∷ formats) = true

-- `f"{label_prefix}.transform.version" if label_prefix else None`
abbrev pub transform_version_key : String → Option String
transform_version_key prefix =
    if is_empty prefix then none else some (prefix ⊕ ".transform.version")

module _ (ports : Ports) (edges : Edges) (time : IsoFormat) (settings : Settings) where
  unfoldable pub probe_source :
      String → List String → Dict String SourceArtifact → Io (Dict String SourceArtifact)
  probe_source src_repo [] source = pure source
  probe_source src_repo (tag ∷ tags) source = do
    info ←
        perform (inspected (src_repo ⊕ (":" ⊕ tag))) (λ h. ports.inspect h (src_repo ⊕ (":" ⊕ tag)))
    probe_source src_repo tags (put tag (to_source_artifact info settings.now) source)

  -- `need_probe`
  abbrev pub need_probe : Bool
  need_probe = settings.attestor || has_any settings.sbom_formats

  abbrev pub list_present : Bool → String → Io (List String)
  list_present false image_ref = pure []
  list_present true image_ref = do
    referrers ← perform (listed_all_referrers image_ref) (λ h. edges.list_all_referrers h image_ref)
    pure (map (λ r. r.artifact_type) referrers)

  unfoldable pub probe_tag : String → String → MirrorProbe → Io MirrorProbe
  probe_tag dest_repo out_tag probe = do
    let image_ref : String = dest_repo ⊕ (":" ⊕ out_tag)
    info ← perform (inspected image_ref) (λ h. ports.inspect h image_ref)
    present ← list_present need_probe image_ref
    absent ← lift (absent_formats settings.sbom_formats present)
    pure (
        note_artifact out_tag info absent
          (to_mirror_artifact time info (transform_version_key settings.label_prefix)
            (not settings.attestor || elem cosign_attestation_artifact_type present)
            (not (has_any absent)))
          probe)

  unfoldable pub probe_tags : String → List String → MirrorProbe → Io MirrorProbe
  probe_tags dest_repo [] probe = pure probe
  probe_tags dest_repo (out_tag ∷ tags) probe = do
    next ←
        if is_referrers_fallback_tag out_tag then pure probe else probe_tag dest_repo out_tag probe
    probe_tags dest_repo tags next

  unfoldable pub probe_mirror : String → Io MirrorProbe
  probe_mirror dest_repo = do
    tags ← perform (listed_tags dest_repo) (λ h. ports.list_tags h dest_repo)
    probe_tags dest_repo tags (record { mirror = []; mirror_digests = []; missing_sbom = [] })

  abbrev pub note_marks :
      String → List Referrer → Dict String (List Referrer) → Dict String (List Referrer)
  note_marks out_tag [] marked = marked
  note_marks out_tag (r ∷ refs) marked = put out_tag (r ∷ refs) marked

  -- `marked_referrers`
  unfoldable pub probe_marks :
      String → List String → Dict String (List Referrer) → Io (Dict String (List Referrer))
  probe_marks dest_repo [] marked = pure marked
  probe_marks dest_repo (out_tag ∷ tags) marked = do
    let image_ref : String = dest_repo ⊕ (":" ⊕ out_tag)
    refs ←
        perform (listed_referrers image_ref pending_deletion_artifact_type)
          (λ h. ports.list_referrers h image_ref pending_deletion_artifact_type)
    probe_marks dest_repo tags (note_marks out_tag refs marked)

module _ (time : IsoFormat) (settings : Settings) where
  -- `parse_pending_mark(...).reason == "retention-excess"`
  unfoldable pub is_retention_mark : String → Referrer → Bool
  is_retention_mark out_tag ref =
      (parse_pending_mark time settings.label_prefix out_tag ref.annotations).reason
      == "retention-excess"

  -- The tags with a mark on one axis.
  unfoldable pub mark_axis : Bool → String → List Referrer → List String → List String
  mark_axis retention out_tag [] tags = tags
  mark_axis retention out_tag (ref ∷ refs) tags = mark_axis retention out_tag refs (
      if is_retention_mark out_tag ref
      then (if retention then add out_tag tags else tags)
      else (if retention then tags else add out_tag tags))

  unfoldable pub marked_on : Bool → Dict String (List Referrer) → List String → List String
  marked_on retention [] tags = tags
  marked_on retention ((out_tag, refs) ∷ marked) tags =
      marked_on retention marked (mark_axis retention out_tag refs tags)

-- ===== src/Apply/Run/Permitted.antt =====
-- Which calls a run may make, by its settings.
pub mod Imports
pub mod Lifecycle
pub mod Whole
use houba.Common.{String, Bool, true, false, ◌≡◌, ◌⊎◌, Option, none, some, []}
use houba.Common.Eq.{elem, string_eq}
use houba.Common.Keys.{◌⊕◌}
use houba.Attestation.{Statement, subject_digest_of}
use houba.Lifecycle.{pending_deletion_artifact_type}
use houba.Policy.{purge}
use houba.Reconcile.Import.{desired_names}
use houba.Session.{
  Call, configured, logged_into, copied, annotated, put_referrer_on, put_artifact_at, built,
  generated_sboms, attested_ref, deleted_referrer, deleted_tag,
}
use houba.Apply.{Plan, Settings}
use houba.Apply.Operations.{at_tag, at_digest}
use houba.Apply.Run.{effective_mode}

module _ (plan : Plan) (settings : Settings) (src_repo : String) where
  -- A reference to the destination by a tag, or by a digest.
  abbrev pub IsTag : String → Type 0
  IsTag ref = (tag : String) × (ref ≡ at_tag plan tag)

  abbrev pub IsDigest : String → Type 0
  IsDigest ref = (digest : String) × (ref ≡ at_digest plan digest)

  -- The source by a digest, or a tag of the destination.
  abbrev pub IsCopied : String → Type 0
  IsCopied src = ((digest : String) × (src ≡ src_repo ⊕ ("@" ⊕ digest))) ⊎ IsTag src

  -- The placed digest whose result takes the tag, or the tag itself after a rebuild.
  abbrev pub IsStamped : String → Option String → Type 0
  IsStamped ref none = IsTag ref
  IsStamped ref (some publish_as) = IsDigest ref × IsTag publish_as

  -- The statement is about the digest that it is attached to.
  abbrev pub IsAbout : String → Statement → Type 0
  IsAbout subject statement =
      (digest : String) × (subject ≡ at_digest plan digest)
      × (statement.subject_digest ≡ subject_digest_of digest)

  abbrev pub WritesTags : Type 0
  WritesTags = settings.dry_run_tags ≡ false

  abbrev pub WritesDeletions : Type 0
  WritesDeletions = settings.dry_run_deletions ≡ false

  unfoldable pub IsPermitted : Call → Type 0
  IsPermitted (copied src dst) = WritesTags × IsCopied src × IsTag dst
  IsPermitted (built request) = WritesTags × IsTag request.image_ref
  IsPermitted (annotated ref annotations publish_as) = WritesTags × IsStamped ref publish_as
  IsPermitted (generated_sboms ref formats) = WritesTags × IsDigest ref
  IsPermitted (attested_ref subject statement) =
      WritesTags × (settings.attestor ≡ true) × IsAbout subject statement
  IsPermitted (put_referrer_on subject new) =
      (WritesTags × IsDigest subject)
      ⊎ (WritesDeletions × IsTag subject × (new.artifact_type ≡ pending_deletion_artifact_type))
  IsPermitted (deleted_referrer ref) = WritesDeletions × IsDigest ref
  IsPermitted (deleted_tag ref) =
      WritesDeletions
      × (effective_mode plan settings ≡ purge)
      × (tag : String) × (ref ≡ at_tag plan tag)
      × (elem tag (desired_names plan.expanded.variants []) ≡ false)
  IsPermitted (put_artifact_at ref artifact_type path media annotations) = ⊥
  IsPermitted (configured host tls ca) = ⊥
  IsPermitted (logged_into host user password tls) = ⊥
  IsPermitted _ = Unit

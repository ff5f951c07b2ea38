-- ===== src/Apply.antt =====
-- knock/use_cases/reconcile_registry.py: what a plan is applied with, and what the registries hold
-- before it is applied. The operations are in Apply/Operations, the stages in Apply/Stages and Apply/Run.
pub mod Probe
pub mod Operations
pub mod Stages
pub mod Run
use houba.Common.{
  ℕ, String, Bool, true, false, not, ◌||◌, Option, none, some, List, [], ◌∷◌, if◌then◌else◌,
}
use houba.Common.Chars.{is_empty}
use houba.Common.Dict.{Dict, get}
use houba.Common.Eq.{string_eq}
use houba.Config.{RegistryConfig}
use houba.Errors.{Result, ok, raise, internal_error}
use houba.Expand.{ExpandedImport}
use houba.IsoTime.{IsoFormat, replace_z}
use houba.Policy.{
  Spec, Source, registry_source, git_source, DeletionMode, ArtifactType, image, helm_chart, generic,
  skill,
}
use houba.Reconcile.{SourceArtifact, MirrorArtifact}
use houba.Retention.{Archive}
use houba.Session.{ImageInfo}
use houba.Stamp.{base_digest_key}
use houba.Transforms.Resolve.{ResolvedTransform}

-- `_Plan`, with the name of the policy.
pub record Plan : Type 0 where
  pub policy_name : String
  pub spec : Spec
  pub expanded : ExpandedImport
  pub dest_repo : String
  pub config : RegistryConfig
  pub transforms : Dict String ResolvedTransform

-- The arguments of `_apply_plan` beside the plan and the ports. `attestor` and `sbom_generator`
-- say whether that port is given.
pub record Settings : Type 0 where
  pub label_prefix : String
  pub build_platform : String
  pub now : ℕ
  pub dry_run_tags : Bool
  pub dry_run_deletions : Bool
  pub deletion_mode : DeletionMode
  pub attestor : Bool
  pub attest_builder_id : String
  pub sbom_generator : Bool
  pub sbom_formats : List String
  pub retention_global : Option Archive

abbrev pub created_key : String
created_key = "org.opencontainers.image.created"

abbrev pub revision_key : String
revision_key = "org.opencontainers.image.revision"

-- `artifact_type.value`
abbrev pub artifact_type_text : ArtifactType → String
artifact_type_text image = "image"
artifact_type_text helm_chart = "helmChart"
artifact_type_text generic = "generic"
artifact_type_text skill = "skill"

-- `_require_registry_source`: the registry and the repository.
abbrev registry_of : Source → Result (String × String)
registry_of (registry_source registry repository) = ok (registry, repository)
registry_of (git_source url ref path) = raise internal_error

unfoldable pub require_registry_source : Spec → Result (String × String)
require_registry_source spec = registry_of spec.source

-- `_parse_created`
unfoldable pub parse_created : IsoFormat → Option String → Option ℕ
unfolding replace_z
parse_created time none = none
parse_created time (some value) =
    if is_empty value then none else time.fromisoformat (replace_z value)

-- `a or b`: an empty text counts as none.
abbrev nonempty_or : Option String → Option String → Option String
nonempty_or none other = other
nonempty_or (some s) other = if is_empty s then other else some s

abbrev or_now : Option ℕ → ℕ → ℕ
or_now none now = now
or_now (some created) now = created

unfoldable pub to_source_artifact : ImageInfo → ℕ → SourceArtifact
unfolding get
to_source_artifact info now = record {
  digest = info.digest;
  pushed_at = or_now info.created now;
  revision = nonempty_or (get revision_key info.annotations) (get revision_key info.config_labels);
}

abbrev version_under : Option String → Dict String String → Option String
version_under none annotations = none
version_under (some key) annotations = get key annotations

abbrev mirror_with :
    IsoFormat
    → Dict String String
    → Option String
    → Bool
    → Bool
    → Option String
    → Option MirrorArtifact
mirror_with time annotations key attested sbom_covered none = none
mirror_with time annotations key attested sbom_covered (some base) = some (record {
  base_digest = base;
  transform_version = version_under key annotations;
  imported_at = parse_created time (get created_key annotations);
  attested = attested;
  sbom_covered = sbom_covered;
})

unfoldable pub to_mirror_artifact :
    IsoFormat → ImageInfo → Option String → Bool → Bool → Option MirrorArtifact
unfolding get parse_created
to_mirror_artifact time info transform_version_key attested sbom_covered =
    mirror_with time info.annotations transform_version_key attested sbom_covered
      (get base_digest_key info.annotations)

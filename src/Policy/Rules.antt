-- ===== src/Policy/Rules.antt =====
-- knock/domain/mirror_policy.py: the rules across the fields of a `Spec`, in the order in which
-- they run.
use houba.Common.{
  Bool, true, false, not, ◌&&◌, Option, none, some, List, [], ◌∷◌, any, is_some, if◌then◌else◌,
}
use houba.Errors.{Result, ok, raise, policy_validation_error, ◌>>=◌}
use houba.Policy.{
  ArtifactType, image, helm_chart, generic, skill, Source, registry_source, git_source,
  TransformStep, Defaults, Spec,
}
use houba.Session.{Done}

-- `_REGISTRY_ONLY` and `_NON_REBUILDABLE`
abbrev pub is_registry_only : ArtifactType → Bool
is_registry_only image = true
is_registry_only helm_chart = true
is_registry_only _ = false

abbrev pub is_non_rebuildable : ArtifactType → Bool
is_non_rebuildable generic = true
is_non_rebuildable skill = true
is_non_rebuildable _ = false

abbrev pub is_skill : ArtifactType → Bool
is_skill skill = true
is_skill _ = false

abbrev pub is_registry_source : Source → Bool
is_registry_source (registry_source registry repository) = true
is_registry_source (git_source url ref path) = false

-- `if transform:`, of a list that may be missing
abbrev pub has_steps : Option (List TransformStep) → Bool
has_steps none = false
has_steps (some []) = false
has_steps (some (s ∷ steps)) = true

abbrev pub refuse_if : Bool → Result Done
refuse_if true = raise policy_validation_error
refuse_if false = ok tt

abbrev pub defaults_with : (Defaults → Bool) → Option Defaults → Bool
defaults_with test none = false
defaults_with test (some d) = test d

-- `_source_matches_artifact_type`
unfoldable pub source_matches_artifact_type : Spec → Result Done
source_matches_artifact_type spec = do
  registry ← refuse_if (is_registry_only spec.artifact_type && not (is_registry_source spec.source))
  refuse_if (is_skill spec.artifact_type && is_registry_source spec.source)

-- `_non_rebuildable_has_no_transform`
unfoldable pub non_rebuildable_has_no_transform : Spec → Result Done
non_rebuildable_has_no_transform spec =
    if not (is_non_rebuildable spec.artifact_type) then ok tt else (do
      checked ← refuse_if (defaults_with (λ d. has_steps d.transform) spec.defaults)
      refuse_if (any (λ imp. has_steps imp.transform) spec.imports))

-- `_skill_has_no_retention`
unfoldable pub skill_has_no_retention : Spec → Result Done
skill_has_no_retention spec = if not (is_skill spec.artifact_type) then ok tt else (do
  moded ← refuse_if (is_some spec.deletion_mode)
  checked ← refuse_if (defaults_with (λ d. is_some d.archive) spec.defaults)
  refuse_if (any (λ imp. is_some imp.archive) spec.imports))

unfoldable pub check_spec : Spec → Result Done
check_spec spec = do
  sourced ← source_matches_artifact_type spec
  untransformed ← non_rebuildable_has_no_transform spec
  skill_has_no_retention spec

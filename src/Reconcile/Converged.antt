-- ===== src/Reconcile/Converged.antt =====
-- When a tag is updated, and when a run has nothing left to do.
use houba.Common.{String, ◌≡◌, true, Option, some}
use houba.Common.Dict.{Dict, get}
use houba.Common.Eq.{string_eq}
use houba.Common.Keys.{◌⊕◌}
use houba.Reconcile.{SourceArtifact, MirrorArtifact}

-- The mirror holds this tag as the policy wants it.
pub record IsCurrent (source : Dict String SourceArtifact) (mirror : Dict String MirrorArtifact)
    (desired : Option String) (suffix tag : String) : Type 0 where
  pub src : SourceArtifact
  pub mir : MirrorArtifact
  pub upstream : get tag source ≡ some src
  pub mirrored : get (tag ⊕ suffix) mirror ≡ some mir
  pub digest : mir.base_digest ≡ src.digest
  pub version : mir.transform_version ≡ desired
  pub attested : mir.attested ≡ true
  pub sbom_covered : mir.sbom_covered ≡ true

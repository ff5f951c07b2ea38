-- ===== src/Stamp.antt =====
-- knock/domain/stamp.py and knock/domain/coverage.py: the provenance stamp and the test that
-- reads it back. `datetime.isoformat` is a parameter.
pub mod Keys
pub mod Covered
use Prim.Native.Char.{code}
use Prim.Native.String
use houba.Common.{
  ℕ, String, Bool, true, false, not, ◌&&◌, Option, none, some, List, [], ◌∷◌, ◌==◌, if◌then◌else◌,
}
use houba.Common.Chars.{is_empty}
use houba.Common.Dict.{Dict, put, has, update}
use houba.Common.Eq.{string_eq}
use houba.Common.Keys.{◌⊕◌}
use houba.Common.Parts.{after_last}
use houba.Errors.{Result, ok, raise, config_error, policy_validation_error}

-- `",".join(xs)`
abbrev pub join : List String → String
join [] = ""
join (x ∷ []) = x
join (x ∷ y ∷ xs) = x ⊕ ("," ⊕ join (y ∷ xs))

-- `text.rsplit("/", 1)[-1]`
unfoldable pub short_name : String → String
unfolding after_last
short_name repository = after_last b'/' repository

abbrev pub base_digest_key : String
base_digest_key = "org.opencontainers.image.base.digest"

-- The arguments that both stamps share.
pub record Lineage : Type 0 where
  pub owners : Option (List String)
  pub artifact_type : String
  pub policy : String
  pub import_name : String
  pub variant : String

pub record GitOrigin : Type 0 where
  pub url : String
  pub revision : String
  pub title : String

pub record ImageOrigin : Type 0 where
  pub source_registry : String
  pub source_repository : String
  pub source_tag : String
  pub source_digest : String
  pub source_revision : Option String

pub record TransformStamp : Type 0 where
  pub transform_steps : Option (List String)
  pub transform_version_value : Option String

-- `if vendor:`
abbrev pub put_vendor : Option String → Dict String String → Dict String String
put_vendor none d = d
put_vendor (some vendor) d =
    if is_empty vendor then d else put "org.opencontainers.image.vendor" vendor d

-- `if owners:`
abbrev pub put_owners : String → Option (List String) → Dict String String → Dict String String
put_owners prefix none d = d
put_owners prefix (some []) d = d
put_owners prefix (some (o ∷ os)) d = put (prefix ⊕ ".owners") (join (o ∷ os)) d

-- `_lineage_annotations`
unfoldable pub lineage_annotations : String → Lineage → Dict String String
unfolding put
lineage_annotations prefix l =
    if is_empty prefix
    then []
    else put_owners prefix l.owners (
        (prefix ⊕ ".artifact.type", l.artifact_type)
        ∷ (prefix ⊕ ".policy", l.policy)
        ∷ (prefix ⊕ ".import", l.import_name)
        ∷ (prefix ⊕ ".variant", l.variant)
        ∷ [])

abbrev pub put_revision : Option String → Dict String String → Dict String String
put_revision none d = d
put_revision (some revision) d = put "org.opencontainers.image.revision" revision d

-- The last block of `build_stamp_annotations`.
abbrev pub put_transform :
    String → Option (List String) → Option String → Dict String String → Dict String String
put_transform prefix (some (s ∷ ss)) (some version) d =
    if is_empty prefix
    then d
    else put (prefix ⊕ ".transform.version") version
        (put (prefix ⊕ ".transform.steps") (join (s ∷ ss)) d)
put_transform prefix _ _ d = d

module _ (isoformat : ℕ → String) where
  -- `_oci_created_and_vendor`
  unfoldable pub oci_created_and_vendor : ℕ → Option String → Dict String String
  unfolding put
  oci_created_and_vendor created vendor =
      put_vendor vendor (("org.opencontainers.image.created", isoformat created) ∷ [])

  unfoldable pub build_git_stamp_annotations :
      String → GitOrigin → ℕ → Option String → Lineage → Result (Dict String String)
  unfolding update oci_created_and_vendor
  build_git_stamp_annotations prefix origin created vendor l =
      if is_empty prefix
      then raise config_error
      else if is_empty origin.revision
      then raise policy_validation_error
      else ok (
          update (lineage_annotations prefix l) (
            update (oci_created_and_vendor created vendor) (
              ("org.opencontainers.image.title", origin.title)
              ∷ ("org.opencontainers.image.source", origin.url)
              ∷ ("org.opencontainers.image.revision", origin.revision)
              ∷ [])))

  abbrev pub source_of : ImageOrigin → String
  source_of origin = origin.source_registry ⊕ ("/" ⊕ origin.source_repository)

  unfoldable pub build_stamp_annotations :
      String → ImageOrigin → ℕ → Option String → Lineage → TransformStamp → Dict String String
  unfolding update short_name oci_created_and_vendor
  build_stamp_annotations prefix origin created vendor l t =
      put_transform prefix t.transform_steps t.transform_version_value (
        update (lineage_annotations prefix l) (
          put_revision origin.source_revision (
            update (oci_created_and_vendor created vendor) (
              ("org.opencontainers.image.title", short_name origin.source_repository)
              ∷ ("org.opencontainers.image.source", source_of origin)
              ∷ ("org.opencontainers.image.base.name", source_of origin ⊕ (":" ⊕ origin.source_tag))
              ∷ (base_digest_key, origin.source_digest)
              ∷ []))))

unfoldable pub is_stamped : Dict String String → String → Bool
unfolding has
is_stamped annotations prefix =
    if is_empty prefix
    then has base_digest_key annotations
    else has (prefix ⊕ ".policy") annotations

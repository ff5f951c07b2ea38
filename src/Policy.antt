-- ===== src/Policy.antt =====
-- knock/domain/mirror_policy.py: the declaration that an operator writes, after parsing.
-- `TagSelection` and `Archive` carry the names of the fields that the document sets
-- (`model_fields_set`), which the merge of defaults reads.
pub mod Rules
use houba.Common.{String, Bool, Option, List}
use houba.Common.Int.{ℤ}
use houba.Common.Dict.{Dict}
use houba.Retention.{Archive}

pub data ArtifactType : Type 0 where
  image helm_chart generic skill : ArtifactType

pub data DeletionMode : Type 0 where
  purge mark : DeletionMode

pub data Source : Type 0 where
  registry_source : (registry repository : String) → Source
  git_source : (url ref : String) (path : Option String) → Source

pub record Destination : Type 0 where
  pub registry : Option String
  pub project : String
  pub repository : String

pub record TagSelection : Type 0 where
  pub include_regex : Option String
  pub exclude_regex : List String
  pub semver_only : Bool
  pub names : List String
  pub aliases : List String
  pub fields_set : List String

-- A value of a step's parameters, as YAML reads it.
mutual
  pub data Value : Type 0 where
    null : Value
    bool : Bool → Value
    num : ℤ → Value
    str : String → Value
    arr : Values → Value
    obj : Fields → Value

  pub data Values : Type 0 where
    nil : Values
    cons : Value → Values → Values

  pub data Fields : Type 0 where
    end : Fields
    field : String → Value → Fields → Fields

pub record TransformStep : Type 0 where
  pub name : String
  pub params : Dict String Value

-- `Archive` with the names of the fields that are set.
pub record ArchiveBlock : Type 0 where
  pub archive : Archive
  pub fields_set : List String

pub record Variant : Type 0 where
  pub name : String
  pub suffix : String
  pub transform : Option (List TransformStep)

pub record Defaults : Type 0 where
  pub tags : Option TagSelection
  pub destinations : Option (List Destination)
  pub transform : Option (List TransformStep)
  pub archive : Option ArchiveBlock
  pub platforms : Option (List String)
  pub owners : Option (List String)
  pub vendor : Option String

pub record ImportProfile : Type 0 where
  pub name : String
  pub tags : TagSelection
  pub destinations : Option (List Destination)
  pub transform : Option (List TransformStep)
  pub archive : Option ArchiveBlock
  pub platforms : Option (List String)
  pub variants : Option (List Variant)
  pub owners : Option (List String)
  pub vendor : Option String

pub record Spec : Type 0 where
  pub artifact_type : ArtifactType
  pub source : Source
  pub deletion_mode : Option DeletionMode
  pub defaults : Option Defaults
  pub imports : List ImportProfile

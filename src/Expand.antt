-- ===== src/Expand.antt =====
-- knock/domain/expand.py and knock/domain/variants.py: what an import becomes, per variant.
pub mod Total
use houba.Common.{String, Bool, Option, none, some, List, [], ◌∷◌}
use houba.Common.Dict.{Dict}
use houba.Policy.{TransformStep, Destination, ArchiveBlock}
use houba.Merge.{ResolvedImport, ResolvedVariant, expand_variants}
use houba.Selection.{select_tags}
use houba.Aliases.{resolve_aliases}

pub record VariantPlan : Type 0 where
  pub name : String
  pub suffix : String
  pub transform : List TransformStep
  pub tags : List String
  pub aliases : Dict String String

pub record ExpandedImport : Type 0 where
  pub name : String
  pub destinations : Option (List Destination)
  pub platforms : Option (List String)
  pub archive : Option ArchiveBlock
  pub variants : List VariantPlan
  pub owners : Option (List String)
  pub vendor : Option String

plans_of : List String → Dict String String → List ResolvedVariant → List VariantPlan
plans_of tags aliases [] = []
plans_of tags aliases (v ∷ variants) =
    record {
      name = v.name;
      suffix = v.suffix;
      transform = v.transform;
      tags = tags;
      aliases = aliases;
    }
    ∷ plans_of tags aliases variants

expanded : ResolvedImport → List String → Dict String String → ExpandedImport
unfolding plans_of expand_variants
expanded resolved tags aliases = record {
  name = resolved.name;
  destinations = resolved.destinations;
  platforms = resolved.platforms;
  archive = resolved.archive;
  variants = plans_of tags aliases (expand_variants resolved);
  owners = resolved.owners;
  vendor = resolved.vendor;
}

-- The regular expressions and the listing of a set are the parameters of Selection and Aliases.
module _ (search : String → String → Bool) (captures_in : String → String → Dict String String)
    (list_set : List String → List String) where
  unfoldable pub expand_import : ResolvedImport → List String → Option ExpandedImport
  unfolding expanded select_tags resolve_aliases
  expand_import resolved source_tags =
      let tags = select_tags search list_set resolved.tags source_tags in
      elim (resolve_aliases captures_in resolved.tags.aliases tags resolved.tags.include_regex) [
        | none ↦ none
        | some aliases ↦ some (expanded resolved tags aliases)
      ]

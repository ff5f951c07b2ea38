-- ===== src/Merge.antt =====
-- knock/domain/policy_merge.py and knock/domain/variants.py: the defaults merged into each import,
-- and an import's variants.
pub mod Checks
pub mod Accepted
use houba.Common.{
  ℕ, String, Bool, true, false, ◌&&◌, Option, none, some, List, [], ◌∷◌, length, ltb, map, or_else,
  if◌then◌else◌,
}
use houba.Common.Eq.{elem, string_eq}
use houba.Errors.{Result, ok, raise, policy_validation_error, ◌>>=◌}
use houba.Policy.{
  Destination, TagSelection, TransformStep, ArchiveBlock, Variant, Defaults, ImportProfile, Spec,
}

pub record ResolvedImport : Type 0 where
  pub name : String
  pub tags : TagSelection
  pub destinations : Option (List Destination)
  pub transform : List TransformStep
  pub archive : Option ArchiveBlock
  pub platforms : Option (List String)
  pub variants : Option (List Variant)
  pub owners : Option (List String)
  pub vendor : Option String

-- A field that the override sets wins.
abbrev pub pick {ℓ} : {A : Type ℓ} → String → List String → A → A → A
pick field fields_set default override = if elem field fields_set then override else default

-- `_merge_tags`: the result is validated from all fields, so all of them are set in it.
unfoldable pub merge_tags : TagSelection → TagSelection → TagSelection
unfolding elem
merge_tags default override = record {
  include_regex =
      pick "include_regex" override.fields_set default.include_regex override.include_regex;
  exclude_regex =
      pick "exclude_regex" override.fields_set default.exclude_regex override.exclude_regex;
  semver_only = pick "semver_only" override.fields_set default.semver_only override.semver_only;
  names = pick "names" override.fields_set default.names override.names;
  aliases = pick "aliases" override.fields_set default.aliases override.aliases;
  fields_set = "include_regex" ∷ "exclude_regex" ∷ "semver_only" ∷ "names" ∷ "aliases" ∷ [];
}

-- `_merge_archive`
unfoldable pub merge_archive : ArchiveBlock → ArchiveBlock → ArchiveBlock
unfolding elem
merge_archive default override = record {
  archive = record {
    keep = pick "keep" override.fields_set default.archive.keep override.archive.keep;
    older_than_days =
        pick "older_than_days" override.fields_set default.archive.older_than_days
          override.archive.older_than_days;
  };
  fields_set = "keep" ∷ "older_than_days" ∷ [];
}

-- `d.field if d else None`
abbrev pub default_of {ℓ} : {A : Type ℓ} → (Defaults → Option A) → Option Defaults → Option A
default_of field none = none
default_of field (some d) = field d

abbrev pub merged_tags : Option TagSelection → TagSelection → TagSelection
merged_tags none tags = tags
merged_tags (some default) tags = merge_tags default tags

abbrev pub merged_archive : Option ArchiveBlock → Option ArchiveBlock → Option ArchiveBlock
merged_archive none archive = archive
merged_archive (some default) none = some default
merged_archive (some default) (some archive) = some (merge_archive default archive)

abbrev pub or_empty {ℓ} : {A : Type ℓ} → Option (List A) → List A
or_empty none = []
or_empty (some xs) = xs

unfoldable pub resolve_import : Option Defaults → ImportProfile → ResolvedImport
resolve_import d imp = record {
  name = imp.name;
  tags = merged_tags (default_of (λ x. x.tags) d) imp.tags;
  destinations = or_else imp.destinations (default_of (λ x. x.destinations) d);
  transform = or_empty (or_else imp.transform (default_of (λ x. x.transform) d));
  archive = merged_archive (default_of (λ x. x.archive) d) imp.archive;
  platforms = or_else imp.platforms (default_of (λ x. x.platforms) d);
  variants = imp.variants;
  owners = or_else imp.owners (default_of (λ x. x.owners) d);
  vendor = or_else imp.vendor (default_of (λ x. x.vendor) d);
}

abbrev pub is_nonempty {ℓ} : {A : Type ℓ} → List A → Bool
is_nonempty [] = false
is_nonempty (x ∷ xs) = true

-- `transform and platforms is not None and len(platforms) > 1`
abbrev pub is_multi_platform_rebuild : ResolvedImport → Bool
is_multi_platform_rebuild r = is_nonempty r.transform && ltb 1 (length (or_empty r.platforms))

abbrev pub admit : ResolvedImport → Result ResolvedImport
admit r = if is_multi_platform_rebuild r then raise policy_validation_error else ok r

-- The loop of `resolve_imports`.
unfoldable pub resolve_all : Option Defaults → List ImportProfile → Result (List ResolvedImport)
unfolding resolve_import
resolve_all d [] = ok []
resolve_all d (imp ∷ imports) = do
  resolved ← admit (resolve_import d imp)
  rest ← resolve_all d imports
  ok (resolved ∷ rest)

unfoldable pub resolve_imports : Spec → Result (List ResolvedImport)
unfolding resolve_all
resolve_imports spec = resolve_all spec.defaults spec.imports

pub record ResolvedVariant : Type 0 where
  pub name : String
  pub suffix : String
  pub transform : List TransformStep

abbrev pub own_or : List TransformStep → Option (List TransformStep) → List TransformStep
own_or inherited none = inherited
own_or inherited (some transform) = transform

abbrev pub resolved_variants : List TransformStep → List Variant → List ResolvedVariant
resolved_variants inherited [] = []
resolved_variants inherited (v ∷ variants) =
    record { name = v.name; suffix = v.suffix; transform = own_or inherited v.transform }
    ∷ resolved_variants inherited variants

abbrev pub default_variant : List TransformStep → ResolvedVariant
default_variant transform = record { name = "default"; suffix = ""; transform = transform }

unfoldable pub expand_variants : ResolvedImport → List ResolvedVariant
expand_variants resolved = elim resolved.variants [
  | none ↦ default_variant resolved.transform ∷ []
  | some variants ↦ resolved_variants resolved.transform variants
]

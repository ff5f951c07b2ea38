-- ===== src/Expand/Total.antt =====
-- An import is always expanded, and its variants share one selection.
use houba.Common.{String, ◌≡◌, refl, ap, Bool, some, List, [], ◌∷◌, map, All}
use houba.Common.Dict.{Dict}
use houba.Merge.{ResolvedImport, ResolvedVariant, expand_variants}
use houba.Selection.{select_tags}
use houba.Aliases.Resolved.{IsPointed, resolve_aliases-IsPointed}
use houba.Expand.{VariantPlan, ExpandedImport, plans_of, expanded, expand_import}

-- A plan reads the selected tags, and its aliases point among these.
abbrev pub IsPlanned :
    (String → String → Dict String String) → ResolvedImport → List String → VariantPlan → Type 0
IsPlanned captures_in resolved tags plan =
    (plan.tags ≡ tags)
    × All (IsPointed captures_in resolved.tags.aliases tags resolved.tags.include_regex)
        plan.aliases

abbrev pub variant_of : VariantPlan → ResolvedVariant
variant_of plan = record { name = plan.name; suffix = plan.suffix; transform = plan.transform }

variants-plans_of :
    (tags : List String) (aliases : Dict String String) (variants : List ResolvedVariant)
    → map variant_of (plans_of tags aliases variants) ≡ variants
unfolding plans_of
variants-plans_of tags aliases [] = refl
variants-plans_of tags aliases (v ∷ variants) =
    ap (λ vs. v ∷ vs) (variants-plans_of tags aliases variants)

plans_of-All {ℓ} :
    (P : VariantPlan → Type ℓ) (tags : List String) (aliases : Dict String String)
    → ((v : ResolvedVariant)
        → P (record {
          name = v.name;
          suffix = v.suffix;
          transform = v.transform;
          tags = tags;
          aliases = aliases;
        }))
    → (variants : List ResolvedVariant) → All P (plans_of tags aliases variants)
unfolding plans_of
plans_of-All P tags aliases h [] = tt
plans_of-All P tags aliases h (v ∷ variants) = (h v, plans_of-All P tags aliases h variants)

-- An import is always expanded: its plans are those of its variants, in their order, each with the
-- tags that are selected and with aliases that a template names, that point at a selected tag and
-- that no selected tag of the same name beats.
pub expand_import-IsPlanned :
    (search : String → String → Bool) (captures_in : String → String → Dict String String)
    → (list_set : List String → List String) (resolved : ResolvedImport) (source_tags : List String)
    → (out : ExpandedImport) × (expand_import search captures_in list_set resolved source_tags
        ≡ some out)
      × (map variant_of out.variants ≡ expand_variants resolved)
      × All
          (IsPlanned captures_in resolved (select_tags search list_set resolved.tags source_tags))
          out.variants
unfolding expand_import expanded
expand_import-IsPlanned search captures_in list_set resolved source_tags =
    let tags = select_tags search list_set resolved.tags source_tags in
    let found =
      resolve_aliases-IsPointed captures_in resolved.tags.aliases tags
        resolved.tags.include_regex in
    (
      expanded resolved tags found.0,
      rw (found.1, expand_import) refl,
      variants-plans_of tags found.0 (expand_variants resolved),
      plans_of-All (IsPlanned captures_in resolved tags) tags found.0 (λ v. (refl, found.2))
          (expand_variants resolved),
    )

-- ===== src/Reconcile/Import.antt =====
-- `reconcile_import` of knock/domain/reconcile.py: all variants, and the two soft-delete sources.
use houba.Common.{ℕ, String, not, Option, none, some, List, [], ◌∷◌, map, filter}
use houba.Common.Int.{ℤ, scale}
use houba.Common.Eq.{elem, add_all, string_eq}
use houba.Common.Dict.{Dict, keys, values, get, put}
use houba.Common.Order.{sorted}
use houba.Errors.{Result, ok, ◌>>=◌}
use houba.Expand.{VariantPlan, ExpandedImport}
use houba.Common.Keys.{◌⊕◌}
use houba.Retention.{ResolvedRetention, select_retention_excess}
use houba.Reconcile.{SourceArtifact, MirrorArtifact, VariantReconcile, reconcile_variant}

pub record ImportReconcile : Type 0 where
  pub name : String
  pub variants : List VariantReconcile
  pub to_delete : List String
  pub to_unmark : List String
  pub to_mark_retention : List String
  pub to_unmark_retention : List String

-- What `reconcile_import` is given beside the import: the state of the mirror and of its marks.
pub record MirrorState : Type 0 where
  pub source : Dict String SourceArtifact
  pub mirror : Dict String MirrorArtifact
  pub now : ℕ
  pub grace : ℤ
  pub marked_selection : List String
  pub marked_retention : List String
  pub retention : Option ResolvedRetention
  pub transform_versions : Dict String (Option String)

-- `tv.get(v.name)`
abbrev pub version_of : Option (Option String) → Option String
version_of none = none
version_of (some v) = v

unfoldable pub reconcile_variants : MirrorState → List VariantPlan → Result (List VariantReconcile)
reconcile_variants s [] = ok []
reconcile_variants s (v ∷ vs) = do
  r ←
      reconcile_variant v s.source s.mirror s.now s.grace
        (version_of (get v.name s.transform_versions))
  rs ← reconcile_variants s vs
  ok (r ∷ rs)

-- `set[str]` of the desired output names: concrete tags and alias names of every variant.
unfoldable pub desired_names : List VariantPlan → List String → List String
unfolding add_all
desired_names [] desired = desired
desired_names (v ∷ vs) desired = desired_names vs (
    add_all (map (λ alias. alias ⊕ v.suffix) (keys v.aliases))
      (add_all (map (λ tag. tag ⊕ v.suffix) v.tags) desired))

-- The dictionary `kept` of import times, filled tag by tag.
abbrev pub keep_time : String → Option MirrorArtifact → Dict String ℕ → Dict String ℕ
keep_time out none kept = kept
keep_time out (some ma) kept = elim ma.imported_at [
  | none ↦ kept
  | some imported_at ↦ put out imported_at kept
]

unfoldable pub kept_times :
    Dict String MirrorArtifact → String → List String → Dict String ℕ → Dict String ℕ
kept_times mirror suffix [] kept = kept
kept_times mirror suffix (tag ∷ tags) kept =
    kept_times mirror suffix tags (keep_time (tag ⊕ suffix) (get (tag ⊕ suffix) mirror) kept)

-- `frozenset(target + v.suffix for target in v.aliases.values())`
unfoldable pub alias_targets : VariantPlan → List String
alias_targets v = map (λ target. target ⊕ v.suffix) (values v.aliases)

-- `timedelta(days=n)` in microseconds.
abbrev pub days : ℤ → ℤ
days n = scale n 86_400_000_000

unfoldable pub variant_excess : MirrorState → ResolvedRetention → VariantPlan → List String
variant_excess s retention v =
    select_retention_excess (kept_times s.mirror v.suffix v.tags []) retention.keep
      (days retention.older_than_days) s.now (alias_targets v)

unfoldable pub retention_loop :
    MirrorState → ResolvedRetention → List VariantPlan → List String → List String
unfolding add_all
retention_loop s retention [] excess = excess
retention_loop s retention (v ∷ vs) excess =
    retention_loop s retention vs (add_all (variant_excess s retention v) excess)

-- `if retention is not None:`
unfoldable pub excess_under :
    Option ResolvedRetention → MirrorState → List VariantPlan → List String
unfolding retention_loop
excess_under none s variants = []
excess_under (some retention) s variants = retention_loop s retention variants []

unfoldable pub retention_excess : MirrorState → List VariantPlan → List String
retention_excess s variants = excess_under s.retention s variants

unfoldable pub reconcile_import : ExpandedImport → MirrorState → Result ImportReconcile
unfolding reconcile_variants
reconcile_import expanded s =
    let desired = desired_names expanded.variants [] in
    let excess = retention_excess s expanded.variants in
    do
      variants ← reconcile_variants s expanded.variants
      ok (record {
        name = expanded.name;
        variants = variants;
        to_delete = sorted (filter (λ t. not (elem t desired)) (keys s.mirror));
        to_unmark = sorted (filter (λ t. elem t desired) s.marked_selection);
        to_mark_retention = sorted (filter (λ t. not (elem t s.marked_retention)) excess);
        to_unmark_retention = sorted (filter (λ t. not (elem t excess)) s.marked_retention);
      })

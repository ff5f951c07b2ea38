-- ===== src/Reconcile/Deletion.antt =====
-- The two soft-delete sources of `reconcile_import`: selection and retention.
use houba.Common.{
  String, ◌≡◌, refl, ◌∙◌, Bool, not, ◌&&◌, ◌||◌, List, [], ◌∷◌, map, any, arith, filter,
}
use houba.Common.Eq.{elem, elem-filter, elem-add_all, add_all, string_eq}
use houba.Common.Dict.{keys, has}
use houba.Common.Order.{sorted, elem-sorted}
use houba.Errors.{ok, bind_inversion}
use houba.Expand.{VariantPlan, ExpandedImport}
use houba.Common.Keys.{◌⊕◌}
use houba.Reconcile.Import.{
  ImportReconcile, MirrorState, desired_names, retention_excess, reconcile_variants,
  reconcile_import,
}

-- `x` is an output name of the variant: a concrete tag or an alias, with the suffix.
abbrev pub is_output : VariantPlan → String → Bool
is_output v x =
    elem x (map (λ tag. tag ⊕ v.suffix) v.tags)
    || elem x (map (λ alias. alias ⊕ v.suffix) (keys v.aliases))

elem-desired_names :
    (vs : List VariantPlan) (desired : List String) (x : String)
    → elem x (desired_names vs desired) ≡ (any (λ v. is_output v x) vs || elem x desired)
unfolding desired_names
elem-desired_names [] desired x = refl
elem-desired_names (v ∷ vs) desired x =
    let tags = map (λ tag. tag ⊕ v.suffix) v.tags in
    let aliases = map (λ alias. alias ⊕ v.suffix) (keys v.aliases) in
    ground (
      arith,
      elem-desired_names vs (add_all aliases (add_all tags desired)) x,
      elem-add_all x aliases (add_all tags desired),
      elem-add_all x tags desired,
    )

-- The lists of a successful result.
pub record IsPlan (expanded : ExpandedImport) (s : MirrorState) (r : ImportReconcile) : Type 0 where
  pub deletes :
      r.to_delete
      ≡ sorted (filter (λ t. not (elem t (desired_names expanded.variants []))) (keys s.mirror))
  pub unmarks :
      r.to_unmark
      ≡ sorted (filter (λ t. elem t (desired_names expanded.variants [])) s.marked_selection)
  pub marks :
      r.to_mark_retention
      ≡ sorted
          (filter (λ t. not (elem t s.marked_retention)) (retention_excess s expanded.variants))
  pub unmarks_retention :
      r.to_unmark_retention
      ≡ sorted
          (filter (λ t. not (elem t (retention_excess s expanded.variants))) s.marked_retention)

pub reconcile_import-IsPlan :
    (expanded : ExpandedImport) (s : MirrorState) {r : ImportReconcile}
    → reconcile_import expanded s ≡ ok r
    → IsPlan expanded s r
unfolding reconcile_import
reconcile_import-IsPlan expanded s {r} h =
    let (variants, done, same) = bind_inversion (reconcile_variants s expanded.variants) _ h in
    record { deletes = cc; unmarks = cc; marks = cc; unmarks_retention = cc }

-- A mirror tag is deleted exactly when it is no output name, concrete or alias, of any variant.
pub to_delete_exact :
    (expanded : ExpandedImport) (s : MirrorState) {r : ImportReconcile} (x : String)
    → reconcile_import expanded s ≡ ok r
    → elem x r.to_delete ≡ (not (any (λ v. is_output v x) expanded.variants) && has x s.mirror)
unfolding has elem
to_delete_exact expanded s x h =
    let plan = reconcile_import-IsPlan expanded s h in
    let desired = desired_names expanded.variants [] in
    rw (plan.deletes) (
      elem-sorted x _
      ∙ elem-filter x (λ t. not (elem t desired)) (keys s.mirror)
      ∙ ground (arith, elem-desired_names expanded.variants [] x))

-- ===== src/Reconcile/Marks.antt =====
-- The retention marks reach their target in one run.
use houba.Common.{String, ◌≡◌, refl, ap, ◌∙◌, Option, none, some, not, List, [], ◌∷◌, arith, filter}
use houba.Common.Eq.{elem, elem-filter, elem-add_all, add_all, string_eq}
use houba.Common.Order.{elem-sorted, sorted_nil}
use houba.Errors.{ok}
use houba.Retention.{ResolvedRetention}
use houba.Expand.{VariantPlan, ExpandedImport}
use houba.Reconcile.Import.{
  ImportReconcile, MirrorState, excess_under, retention_loop, variant_excess, retention_excess,
  reconcile_import,
}
use houba.Reconcile.Deletion.{reconcile_import-IsPlan}

-- The marks after the plan has been carried out: `to_mark_retention` added, the cleared removed.
abbrev pub marks_after : MirrorState → ImportReconcile → List String
marks_after s r =
    filter (λ t. not (elem t r.to_unmark_retention))
      (add_all r.to_mark_retention s.marked_retention)

-- What retention selects does not depend on the marks.
module _ (s : MirrorState) (marks : List String) where
  loop_ignores_marks :
      (retention : ResolvedRetention) (vs : List VariantPlan) (excess : List String)
      → retention_loop (record s { marked_retention = marks }) retention vs excess
        ≡ retention_loop s retention vs excess
  unfolding retention_loop variant_excess
  loop_ignores_marks retention [] excess = refl
  loop_ignores_marks retention (v ∷ vs) excess = loop_ignores_marks retention vs _

  under_ignores_marks :
      (retention : Option ResolvedRetention) (vs : List VariantPlan)
      → excess_under retention (record s { marked_retention = marks }) vs
        ≡ excess_under retention s vs
  unfolding excess_under
  under_ignores_marks none vs = refl
  under_ignores_marks (some retention) vs = loop_ignores_marks retention vs []

  excess_ignores_marks :
      (vs : List VariantPlan)
      → retention_excess (record s { marked_retention = marks }) vs ≡ retention_excess s vs
  unfolding retention_excess
  excess_ignores_marks vs = under_ignores_marks s.retention vs

elem-marks_after :
    (expanded : ExpandedImport) (s : MirrorState) {r : ImportReconcile} (x : String)
    → reconcile_import expanded s ≡ ok r
    → elem x (marks_after s r) ≡ elem x (retention_excess s expanded.variants)
elem-marks_after expanded s {r} x h =
    let plan = reconcile_import-IsPlan expanded s h in
    let excess = retention_excess s expanded.variants in
    elem-filter x (λ t. not (elem t r.to_unmark_retention))
      (add_all r.to_mark_retention s.marked_retention)
    ∙ ground (
      arith,
      elem-add_all x r.to_mark_retention s.marked_retention,
      ap (elem x) plan.marks,
      ap (elem x) plan.unmarks_retention,
      elem-sorted x (filter (λ t. not (elem t s.marked_retention)) excess),
      elem-sorted x (filter (λ t. not (elem t excess)) s.marked_retention),
      elem-filter x (λ t. not (elem t s.marked_retention)) excess,
      elem-filter x (λ t. not (elem t excess)) s.marked_retention,
    )

-- Carrying the plan out leaves exactly the excess tags marked, and from there the same state of
-- the mirror plans no further mark and clears none.
pub marks_converge :
    (expanded : ExpandedImport) (s : MirrorState) {r r' : ImportReconcile}
    → reconcile_import expanded s ≡ ok r
    → reconcile_import expanded (record s { marked_retention = marks_after s r }) ≡ ok r'
    → ((x : String) → elem x (marks_after s r) ≡ elem x (retention_excess s expanded.variants))
      × (r'.to_mark_retention ≡ [])
      × (r'.to_unmark_retention ≡ [])
marks_converge expanded s {r} {r'} h h' =
    let after = marks_after s r in
    let excess = retention_excess s expanded.variants in
    let same = λ (x : String). elem-marks_after expanded s x h in
    let plan = reconcile_import-IsPlan expanded _ h' in
    let still = excess_ignores_marks s after expanded.variants in
    (
      same,
      plan.marks
          ∙ rw still (
              sorted_nil _
                (λ x. elem-filter x (λ t. not (elem t after)) excess ∙ ground (arith, same x))),
      plan.unmarks_retention
          ∙ rw still (
              sorted_nil _
                (λ x. elem-filter x (λ t. not (elem t excess)) after ∙ ground (arith, same x))),
    )

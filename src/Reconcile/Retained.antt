-- ===== src/Reconcile/Retained.antt =====
-- What retention can select: valid tags of a variant, never one that its aliases point at.
use houba.Common.{
  ℕ, String, ◌≡◌, refl, ◌∙◌, Bool, true, false, not, ◌&&◌, ◌||◌, Option, none, some, List, [], ◌∷◌,
  map, any, arith, Option-cases, inl, inr,
}
use houba.Common.Text.{◌==◌}
use houba.Common.Eq.{elem, elem-filter, elem-add_all, add_all, string_eq}
use houba.Common.Dict.{values, Dict, get, has, has-put, IsDict, put-IsDict}
use houba.Common.Order.{elem-sorted}
use houba.Errors.{ok}
use houba.Expand.{VariantPlan, ExpandedImport}
use houba.Common.Keys.{◌⊕◌}
use houba.Retention.{ResolvedRetention}
use houba.Retention.Rank.{has_of_selected}
use houba.Reconcile.{MirrorArtifact}
use houba.Reconcile.Import.{
  ImportReconcile, MirrorState, days, keep_time, kept_times, alias_targets, variant_excess,
  retention_loop, excess_under, retention_excess, reconcile_import,
}
use houba.Reconcile.Deletion.{is_output, reconcile_import-IsPlan, to_delete_exact}

abbrev concrete : VariantPlan → String → Bool
concrete v x = elem x (map (λ tag. tag ⊕ v.suffix) v.tags)

keep_time-IsDict :
    (out : String) (ma : Option MirrorArtifact) (kept : Dict String ℕ)
    → IsDict kept
    → IsDict (keep_time out ma kept)
keep_time-IsDict out none kept h = h
keep_time-IsDict out (some ma) kept h = elim (Option-cases ma.imported_at) [
  | inl e ↦ rw (e, keep_time) h
  | inr (t, e) ↦ rw (e, keep_time) (put-IsDict out t kept h)
]

has-keep_time :
    (out x : String) (ma : Option MirrorArtifact) (kept : Dict String ℕ)
    → has x (keep_time out ma kept) ≡ true
    → ((out == x) || has x kept) ≡ true
has-keep_time out x none kept h = ground arith
has-keep_time out x (some ma) kept h = elim (Option-cases ma.imported_at) [
  | inl e ↦ let h' = rw (e, keep_time) at h in ground arith
  | inr (t, e) ↦ let h' = rw (e, keep_time) at h in ground (arith, has-put out x t kept)
]

module _ (mirror : Dict String MirrorArtifact) (suffix : String) where
  kept_times-IsDict :
      (tags : List String) (kept : Dict String ℕ)
      → IsDict kept
      → IsDict (kept_times mirror suffix tags kept)
  unfolding kept_times
  kept_times-IsDict [] kept h = h
  kept_times-IsDict (tag ∷ tags) kept h =
      kept_times-IsDict tags _ (keep_time-IsDict (tag ⊕ suffix) (get (tag ⊕ suffix) mirror) kept h)

  has-kept_times :
      (tags : List String) (kept : Dict String ℕ) (x : String)
      → has x (kept_times mirror suffix tags kept) ≡ true
      → (elem x (map (λ tag. tag ⊕ suffix) tags) || has x kept) ≡ true
  unfolding kept_times elem
  has-kept_times [] kept x h = h
  has-kept_times (tag ∷ tags) kept x h =
      let ma = get (tag ⊕ suffix) mirror in
      ground (
        arith,
        has-kept_times tags (keep_time (tag ⊕ suffix) ma kept) x,
        has-keep_time (tag ⊕ suffix) x ma kept,
      )

not-has-empty : (x : String) → has {V = ℕ} x [] ≡ false
unfolding has
not-has-empty x = refl

-- A tag that one variant's retention selects is a concrete output of it and no alias points at it.
variant_excess-concrete :
    (s : MirrorState) (retention : ResolvedRetention) (v : VariantPlan) (x : String)
    → elem x (variant_excess s retention v) ≡ true
    → (concrete v x && not (elem x (alias_targets v))) ≡ true
unfolding variant_excess
variant_excess-concrete s retention v x h =
    let kept = kept_times s.mirror v.suffix v.tags [] in
    let (known, free) =
      has_of_selected kept retention.keep (days retention.older_than_days) s.now (alias_targets v) x
        (kept_times-IsDict s.mirror v.suffix v.tags [] tt) h in
    ground (arith, has-kept_times s.mirror v.suffix v.tags [] x known, not-has-empty x, free)

-- An alias of the variant points at the name.
abbrev pub is_alias_target : VariantPlan → String → Bool
is_alias_target v x = elem x (map (λ target. target ⊕ v.suffix) (values v.aliases))

abbrev pub retains_from : MirrorState → ResolvedRetention → String → VariantPlan → Bool
retains_from s retention x v =
    concrete v x && not (is_alias_target v x) && elem x (variant_excess s retention v)

elem-retention_loop :
    (s : MirrorState) (retention : ResolvedRetention) (vs : List VariantPlan) (excess : List String)
    (x : String)
    → elem x (retention_loop s retention vs excess)
      ≡ (any (retains_from s retention x) vs || elem x excess)
unfolding retention_loop alias_targets
elem-retention_loop s retention [] excess x = refl
elem-retention_loop s retention (v ∷ vs) excess x = ground (
  arith,
  variant_excess-concrete s retention v x,
  elem-retention_loop s retention vs (add_all (variant_excess s retention v) excess) x,
  elem-add_all x (variant_excess s retention v) excess,
)

-- Some variant's retention selects the name.
abbrev pub retains : Option ResolvedRetention → MirrorState → List VariantPlan → String → Bool
retains none s vs x = false
retains (some retention) s vs x = any (retains_from s retention x) vs

elem-excess_under :
    (retention : Option ResolvedRetention) (s : MirrorState) (vs : List VariantPlan) (x : String)
    → elem x (excess_under retention s vs) ≡ retains retention s vs x
unfolding excess_under elem
elem-excess_under none s vs x = refl
elem-excess_under (some retention) s vs x = ground (arith, elem-retention_loop s retention vs [] x)

pub elem-retention_excess :
    (s : MirrorState) (vs : List VariantPlan) (x : String)
    → elem x (retention_excess s vs) ≡ retains s.retention s vs x
unfolding retention_excess
elem-retention_excess s vs x = elem-excess_under s.retention s vs x

retains-is_output :
    (retention : Option ResolvedRetention) (s : MirrorState) (vs : List VariantPlan) (x : String)
    → retains retention s vs x ≡ true
    → any (λ v. is_output v x) vs ≡ true
retains-is_output none s vs x h = cc
retains-is_output (some retention) s [] x h = cc
retains-is_output (some retention) s (v ∷ vs) x h =
    ground (arith, retains-is_output (some retention) s vs x)

-- A tag gets a retention mark exactly when it has none yet and some variant selects it: one that
-- produces it as a concrete tag and whose aliases do not point at it. Such a tag is never also
-- deleted by selection.
pub to_mark_retention_exact :
    (expanded : ExpandedImport) (s : MirrorState) {r : ImportReconcile} (x : String)
    → reconcile_import expanded s ≡ ok r
    → (elem x r.to_mark_retention
        ≡ (not (elem x s.marked_retention) && retains s.retention s expanded.variants x))
      × (elem x r.to_mark_retention ≡ true → elem x r.to_delete ≡ false)
to_mark_retention_exact expanded s {r} x h =
    let plan = reconcile_import-IsPlan expanded s h in
    let marked : elem x r.to_mark_retention
        ≡ (not (elem x s.marked_retention) && retains s.retention s expanded.variants x) =
      rw (plan.marks) (
        elem-sorted x _
        ∙ elem-filter x (λ t. not (elem t s.marked_retention))
            (retention_excess s expanded.variants)
        ∙ ground (arith, elem-retention_excess s expanded.variants x)) in
    (
      marked,
      λ m. ground (
        arith,
        to_delete_exact expanded s x h,
        retains-is_output s.retention s expanded.variants x,
      ),
    )

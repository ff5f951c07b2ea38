-- ===== src/Reconcile/Variants.antt =====
-- What `reconcile_variant` puts where.
use mathlib.Core.List.{append_assoc, append-nil}
use houba.Common.{
  ℕ, String, ◌≡◌, refl, ◌∙◌, subst, Bool, true, false, not, ◌&&◌, Option, none, some, List, [], ◌∷◌,
  ◌++◌, arith, if◌then◌else◌, all, Option-cases, inl, inr,
}
use houba.Common.Int.{ℤ}
use houba.Common.Dict.{Dict, get, has, has-is_some}
use houba.Common.Eq.{string_eq}
use houba.Errors.{ok, is_ok, is_ok-bind, bind_inversion}
use houba.Expand.{VariantPlan}
use houba.Common.Keys.{◌⊕◌}
use houba.Reconcile.{
  SourceArtifact, MirrorArtifact, Decision, import_new, update_old, keep, classify, Buckets,
  empty_buckets, reconcile_tag, reconcile_tags, VariantReconcile, reconcile_variant,
}

-- `[tag + suffix for tag in tags if p(tag)]`
abbrev pub outputs : (String → Bool) → String → List String → List String
outputs p suffix [] = []
outputs p suffix (t ∷ ts) =
    let rest = outputs p suffix ts in if p t then (t ⊕ suffix) ∷ rest else rest

outputs-step :
    (p : String → Bool) (suffix : String) (t : String) (ts before mid : List String)
    → mid ≡ before ++ (if p t then (t ⊕ suffix) ∷ [] else [])
    → mid ++ outputs p suffix ts ≡ before ++ outputs p suffix (t ∷ ts)
outputs-step p suffix t ts before mid e = rw e (append_assoc before _ _ ∙ by_case (p t))
  where
    by_case :
        (b : Bool)
        → before ++ ((if b then (t ⊕ suffix) ∷ [] else []) ++ outputs p suffix ts)
          ≡ before ++ (if b then (t ⊕ suffix) ∷ outputs p suffix ts else outputs p suffix ts)
    by_case true = refl
    by_case false = refl

abbrev is_import : Decision → Bool
is_import import_new = true
is_import _ = false

abbrev is_update : Decision → Bool
is_update update_old = true
is_update _ = false

abbrev is_keep : Decision → Bool
is_keep keep = true
is_keep _ = false

abbrev lacks : (MirrorArtifact → Bool) → Option MirrorArtifact → Bool
lacks field none = false
lacks field (some m) = not (field m)

module _ (source : Dict String SourceArtifact) (mirror : Dict String MirrorArtifact) (now : ℕ)
    (grace : ℤ) (desired : Option String) (suffix : String) where
  abbrev decide_with : String → Option SourceArtifact → Decision
  decide_with tag none = keep
  decide_with tag (some src) = classify src (get (tag ⊕ suffix) mirror) now grace desired

  -- The decision on one tag of the plan.
  unfoldable pub decision : String → Decision
  decision tag = decide_with tag (get tag source)

  unfoldable pub wants_import : String → Bool
  unfolding decision
  wants_import tag = is_import (decision tag)

  unfoldable pub wants_update : String → Bool
  unfolding decision
  wants_update tag = is_update (decision tag)

  -- A kept tag whose mirror digest lacks a signature, or an SBOM.
  unfoldable pub wants_sign : String → Bool
  unfolding decision
  wants_sign tag = is_keep (decision tag) && lacks (λ m. m.attested) (get (tag ⊕ suffix) mirror)

  unfoldable pub wants_sbom : String → Bool
  unfolding decision
  wants_sbom tag = is_keep (decision tag) && lacks (λ m. m.sbom_covered) (get (tag ⊕ suffix) mirror)

  -- The lists after the loop, from those before it.
  pub record IsPlaced (tags : List String) (b b' : Buckets) : Type 0 where
    pub imports : b'.to_import ≡ b.to_import ++ outputs wants_import suffix tags
    pub updates : b'.to_update ≡ b.to_update ++ outputs wants_update suffix tags
    pub signs : b'.to_sign ≡ b.to_sign ++ outputs wants_sign suffix tags
    pub sboms : b'.to_sbom ≡ b.to_sbom ++ outputs wants_sbom suffix tags

  abbrev one : (String → Bool) → String → List String
  one p tag = if p tag then (tag ⊕ suffix) ∷ [] else []

  record IsStep (tag : String) (b b' : Buckets) : Type 0 where
    imports : b'.to_import ≡ b.to_import ++ one wants_import tag
    updates : b'.to_update ≡ b.to_update ++ one wants_update tag
    signs : b'.to_sign ≡ b.to_sign ++ one wants_sign tag
    sboms : b'.to_sbom ≡ b.to_sbom ++ one wants_sbom tag

  reconcile_tag-IsStep :
      (tag : String) (src : SourceArtifact) (b : Buckets)
      → get tag source ≡ some src
      → IsStep tag b (reconcile_tag source mirror now grace desired suffix tag src b)
  unfolding reconcile_tag wants_import wants_update wants_sign wants_sbom
  reconcile_tag-IsStep tag src b e = record {
    imports = ground (arith, append-nil b.to_import);
    updates = ground (arith, append-nil b.to_update);
    signs = ground (arith, append-nil b.to_sign);
    sboms = ground (arith, append-nil b.to_sbom);
  }

  reconcile_tags-IsPlaced :
      (tags : List String) (b b' : Buckets)
      → reconcile_tags source mirror now grace desired suffix tags b ≡ ok b'
      → IsPlaced tags b b'
  unfolding reconcile_tags
  reconcile_tags-IsPlaced [] b b' h = record {
    imports = ground (arith, append-nil b.to_import);
    updates = ground (arith, append-nil b.to_update);
    signs = ground (arith, append-nil b.to_sign);
    sboms = ground (arith, append-nil b.to_sbom);
  }
  reconcile_tags-IsPlaced (tag ∷ tags) b b' h = elim (Option-cases (get tag source)) [
    | inl missing ↦ absurd (cc (rw (missing, reconcile_tags) at h))
    | inr (src, found) ↦
        let step = reconcile_tag-IsStep tag src b found in
        let rest =
          reconcile_tags-IsPlaced tags
            (reconcile_tag source mirror now grace desired suffix tag src b) b'
            (rw (found, reconcile_tags) at h) in
        record {
          imports = rest.imports ∙ outputs-step wants_import suffix tag tags _ _ step.imports;
          updates = rest.updates ∙ outputs-step wants_update suffix tag tags _ _ step.updates;
          signs = rest.signs ∙ outputs-step wants_sign suffix tag tags _ _ step.signs;
          sboms = rest.sboms ∙ outputs-step wants_sbom suffix tag tags _ _ step.sboms;
        }
  ]

  reconcile_tags_total :
      (tags : List String) (b : Buckets)
      → is_ok (reconcile_tags source mirror now grace desired suffix tags b)
        ≡ all (λ t. has t source) tags
  unfolding reconcile_tags
  reconcile_tags_total [] b = refl
  reconcile_tags_total (tag ∷ tags) b = elim (Option-cases (get tag source)) [
    | inl missing ↦ rw (missing, reconcile_tags) (ground (arith, missing, has-is_some tag source))
    | inr (src, found) ↦
        let next = reconcile_tag source mirror now grace desired suffix tag src b in
        rw (found, reconcile_tags)
          (ground (arith, found, has-is_some tag source, reconcile_tags_total tags next))
  ]

module _ (plan : VariantPlan) (source : Dict String SourceArtifact)
    (mirror : Dict String MirrorArtifact) (now : ℕ) (grace : ℤ) (desired : Option String) where
  -- When `reconcile_variant` returns, its four lists hold, in the order of the plan, exactly the
  -- output names of the tags whose decision is import, whose decision is update, that are kept and
  -- unsigned, and that are kept without an SBOM.
  pub reconcile_variant-IsPlaced :
      {r : VariantReconcile}
      → reconcile_variant plan source mirror now grace desired ≡ ok r
      → IsPlaced source mirror now grace desired plan.suffix plan.tags empty_buckets r.buckets
  unfolding reconcile_variant
  reconcile_variant-IsPlaced {r} h =
      let (b, placed, same) =
        bind_inversion
          (reconcile_tags source mirror now grace desired plan.suffix plan.tags empty_buckets) _
          h in
      let buckets : b ≡ r.buckets = cc in
      subst (IsPlaced source mirror now grace desired plan.suffix plan.tags empty_buckets) buckets
        (reconcile_tags-IsPlaced source mirror now grace desired plan.suffix plan.tags _ b placed)

  -- `reconcile_variant` returns exactly when every tag of the plan is in the source state.
  pub reconcile_variant_total :
      is_ok (reconcile_variant plan source mirror now grace desired)
      ≡ all (λ t. has t source) plan.tags
  unfolding reconcile_variant
  reconcile_variant_total =
      is_ok-bind
        (reconcile_tags source mirror now grace desired plan.suffix plan.tags empty_buckets) _
        (λ b. refl)
      ∙ reconcile_tags_total source mirror now grace desired plan.suffix plan.tags empty_buckets

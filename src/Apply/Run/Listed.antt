-- ===== src/Apply/Run/Listed.antt =====
-- Every listed item has its source.
use houba.Common.{
  String, Bool, true, false, ◌≡◌, refl, sym, ap, subst, Option-cases, ◌∙◌, ◌&&◌, ◌||◌, inl, inr,
  Option, none, some, List, [], ◌∷◌, ◌++◌, arith, all, length, Bool-cases, All,
}
use houba.Common.Text.{eq_iff, ◌==◌}
use houba.Common.Dict.{Dict, get, put, get-put, has}
use houba.Common.Eq.{elem, string_eq}
use houba.Common.Keys.{◌⊕◌}
use houba.Errors.{ok, is_ok, bind_inversion}
use houba.Expand.{VariantPlan}
use houba.Reconcile.{SourceArtifact, VariantReconcile, reconcile_variant}
use houba.Reconcile.Variants.{reconcile_variant_total}
use houba.Reconcile.Import.{MirrorState, reconcile_variants, version_of}
use houba.Apply.Operations.{ImportWork, SignWork, SbomWork, index}
use houba.Session.Stages.{Returns}
use houba.Apply.Stages.{
  WorkLists, out_to_src, sources, import_works, sign_works, sbom_works, work_of,
}

is_value : String → Option String → Bool
is_value t none = false
is_value t (some s) = s == t

-- All tags of all variants are in the source state.
unfoldable pub all_known : Dict String SourceArtifact → List VariantPlan → Bool
all_known source [] = true
all_known source (v ∷ vs) = all (λ t. has t source) v.tags && all_known source vs

pub reconcile_variants-all_known :
    (s : MirrorState) (vs : List VariantPlan) (rs : List VariantReconcile)
    → reconcile_variants s vs ≡ ok rs
    → (all_known s.source vs ≡ true) × (length rs ≡ length vs)
unfolding reconcile_variants all_known
reconcile_variants-all_known s [] rs h = let same : [] ≡ rs = cc in rw (← same) (refl, refl)
reconcile_variants-all_known s (v ∷ vs) rs h =
    let desired = version_of (get v.name s.transform_versions) in
    let first = bind_inversion (reconcile_variant v s.source s.mirror s.now s.grace desired) _ h in
    let later = bind_inversion (reconcile_variants s vs) _ first.2 in
    let rest = reconcile_variants-all_known s vs later.0 later.1 in
    let same : (first.0 ∷ later.0) ≡ rs = cc in
    let known : all (λ t. has t s.source) v.tags ≡ true =
      sym (reconcile_variant_total v s.source s.mirror s.now s.grace desired) ∙ ap is_ok first.1 in
    rw (← same) (ground (arith), omega (arith, rest.1))

get-out_to_src :
    (suffix : String) (tags : List String) (d : Dict String String) (k t : String)
    → get k (out_to_src suffix tags d) ≡ some t
    → (elem t tags || is_value t (get k d)) ≡ true
unfolding out_to_src elem is_value
get-out_to_src suffix [] d k t h = rw h ((eq_iff t t).1 refl)
get-out_to_src suffix (x ∷ tags) d k t h =
    let later = get-out_to_src suffix tags (put (x ⊕ suffix) x d) k t h in
    let written = ap (is_value t) (get-put (x ⊕ suffix) k x d) in
    elim (Bool-cases (x ⊕ suffix == k)) [
      | inl e ↦ let here = rw e at written in ground (arith, here, later)
      | inr e ↦ let other = rw e at written in ground (arith, other, later)
    ]

all-elem :
    (p : String → Bool) (t : String) (xs : List String)
    → all p xs ≡ true
    → elem t xs ≡ true
    → p t ≡ true
unfolding elem
all-elem p t [] h m = ground arith
all-elem p t (x ∷ xs) h m = elim (Bool-cases (x == t)) [
  | inl e ↦ subst (λ s. p s ≡ true) ((eq_iff x t).0 e) (ground arith)
  | inr e ↦ all-elem p t xs (ground arith) (ground arith)
]

-- The source tag of an output name of a variant.
known_source :
    (source : Dict String SourceArtifact) (vplan : VariantPlan) (k t : String)
    → all (λ t. has t source) vplan.tags ≡ true
    → index (get k (out_to_src vplan.suffix vplan.tags [])) ≡ ok t
    → has t source ≡ true
unfolding get is_value
known_source source vplan k t h e =
    elim (Option-cases (get k (out_to_src vplan.suffix vplan.tags []))) [
      | inl n ↦ let bad = rw n at e in cc
      | inr (s, n) ↦
          let found = rw n at e in
          let same : s ≡ t = cc in
          let listed : elem s vplan.tags ≡ true =
            ground (arith, get-out_to_src vplan.suffix vplan.tags [] k s n) in
          all-elem (λ t. has t source) t vplan.tags h
            (subst (λ x. elem x vplan.tags ≡ true) same listed)
    ]

module _ (source : Dict String SourceArtifact) where
  abbrev pub IsListed {ℓ} : {W : Type ℓ} → (W → String) → List W → Type 0
  IsListed src_tag works = All (λ w. has (src_tag w) source ≡ true) works

  IsListed-append {ℓ} :
      {W : Type ℓ} (src_tag : W → String) (xs ys : List W)
      → IsListed src_tag xs
      → IsListed src_tag ys
      → IsListed src_tag (xs ++ ys)
  IsListed-append src_tag [] ys h k = k
  IsListed-append src_tag (x ∷ xs) ys h k = (h.0, IsListed-append src_tag xs ys h.1 k)

  module _ (vr : VariantReconcile) (vplan : VariantPlan)
      (known : all (λ t. has t source) vplan.tags ≡ true) where
    import_works-IsListed :
        (tags : List String) (works : List ImportWork)
        → import_works vr vplan tags ≡ ok works
        → IsListed (λ w. w.src_tag) works
    unfolding import_works
    import_works-IsListed [] works h = let same : [] ≡ works = cc in rw (← same) tt
    import_works-IsListed (tag ∷ tags) works h =
        let first = bind_inversion (index (get tag (sources vr vplan))) _ h in
        let later = bind_inversion (import_works vr vplan tags) _ first.2 in
        let rest = import_works-IsListed tags later.0 later.1 in
        let here = known_source source vplan tag first.0 known first.1 in
        subst (Returns (λ ws. IsListed (λ w. w.src_tag) ws)) later.2 (here, rest)

    sign_works-IsListed :
        (tags : List String) (works : List SignWork)
        → sign_works vr vplan tags ≡ ok works
        → IsListed (λ w. w.src_tag) works
    unfolding sign_works
    sign_works-IsListed [] works h = let same : [] ≡ works = cc in rw (← same) tt
    sign_works-IsListed (tag ∷ tags) works h =
        let first = bind_inversion (index (get tag (sources vr vplan))) _ h in
        let later = bind_inversion (sign_works vr vplan tags) _ first.2 in
        let rest = sign_works-IsListed tags later.0 later.1 in
        let here = known_source source vplan tag first.0 known first.1 in
        subst (Returns (λ ws. IsListed (λ w. w.src_tag) ws)) later.2 (here, rest)

    sbom_works-IsListed :
        (missing : Dict String (List String)) (tags : List String) (works : List SbomWork)
        → sbom_works vr vplan missing tags ≡ ok works
        → IsListed (λ w. w.src_tag) works
    unfolding sbom_works
    sbom_works-IsListed missing [] works h = let same : [] ≡ works = cc in rw (← same) tt
    sbom_works-IsListed missing (tag ∷ tags) works h =
        let first = bind_inversion (index (get tag (sources vr vplan))) _ h in
        let formats = bind_inversion (index (get tag missing)) _ first.2 in
        let later = bind_inversion (sbom_works vr vplan missing tags) _ formats.2 in
        let rest = sbom_works-IsListed missing tags later.0 later.1 in
        let here = known_source source vplan tag first.0 known first.1 in
        subst (Returns (λ ws. IsListed (λ w. w.src_tag) ws)) later.2 (here, rest)

  -- The three lists of a run.
  abbrev pub AreListed : WorkLists → Type 0
  AreListed work =
      IsListed (λ w. w.src_tag) work.import_items
      × IsListed (λ w. w.src_tag) work.sign_items
      × IsListed (λ w. w.src_tag) work.sbom_items

  pub work_of-AreListed :
      (missing : Dict String (List String)) (vrs : List VariantReconcile)
      (vplans : List VariantPlan) (work : WorkLists)
      → all_known source vplans ≡ true
      → work_of missing vrs vplans ≡ ok work
      → AreListed work
  unfolding work_of all_known
  work_of-AreListed missing [] [] work k h = subst (Returns AreListed) h (tt, tt, tt)
  work_of-AreListed missing [] (vplan ∷ vplans) work k h = cc
  work_of-AreListed missing (vr ∷ vrs) [] work k h = cc
  work_of-AreListed missing (vr ∷ vrs) (vplan ∷ vplans) work k h =
      let here : all (λ t. has t source) vplan.tags ≡ true = ground (arith) in
      let imports = bind_inversion (import_works vr vplan (vr.to_import ++ vr.to_update)) _ h in
      let signs = bind_inversion (sign_works vr vplan vr.to_sign) _ imports.2 in
      let sboms = bind_inversion (sbom_works vr vplan missing vr.to_sbom) _ signs.2 in
      let later = bind_inversion (work_of missing vrs vplans) _ sboms.2 in
      let rest = work_of-AreListed missing vrs vplans later.0 (ground (arith)) later.1 in
      subst (Returns AreListed) later.2 (
        IsListed-append _ imports.0 later.0.import_items
            (import_works-IsListed vr vplan here _ imports.0 imports.1) rest.0,
        IsListed-append _ signs.0 later.0.sign_items
            (sign_works-IsListed vr vplan here _ signs.0 signs.1) rest.1,
        IsListed-append _ sboms.0 later.0.sbom_items
            (sbom_works-IsListed vr vplan here missing _ sboms.0 sboms.1) rest.2,
      )

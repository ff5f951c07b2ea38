-- ===== src/Merge/Checks.antt =====
-- Which imports are resolved.
use houba.Common.{String, ◌≡◌, sym, inl, inr, false, Option, List, [], ◌∷◌, All, subst, Bool-cases}
use houba.Errors.{ok, bind_inversion}
use houba.Policy.{Defaults, ImportProfile}
use houba.Merge.{ResolvedImport, resolve_import, is_multi_platform_rebuild, admit, resolve_all}

abbrev pub names_of : List ResolvedImport → List String
names_of [] = []
names_of (r ∷ rs) = r.name ∷ names_of rs

abbrev pub import_names : List ImportProfile → List String
import_names [] = []
import_names (imp ∷ imports) = imp.name ∷ import_names imports

admit-ok : (r s : ResolvedImport) → admit r ≡ ok s → (r ≡ s) × (is_multi_platform_rebuild r ≡ false)
admit-ok r s h = elim (Bool-cases (is_multi_platform_rebuild r)) [
  | inl e ↦ absurd (cc (rw e at h))
  | inr e ↦ (cc (rw e at h), e)
]

-- The resolved imports, and each one's own resolution accepted.
resolve_all-cons :
    (d : Option Defaults) (imp : ImportProfile) (imports : List ImportProfile)
    (rs : List ResolvedImport)
    → resolve_all d (imp ∷ imports) ≡ ok rs
    → (rest : List ResolvedImport) × (rs ≡ resolve_import d imp ∷ rest)
      × (is_multi_platform_rebuild (resolve_import d imp) ≡ false)
      × (resolve_all d imports ≡ ok rest)
unfolding resolve_all
resolve_all-cons d imp imports rs e =
    let (r, admitted, e₁) = bind_inversion (admit (resolve_import d imp)) _ e in
    let (rest, resolved, e₂) = bind_inversion (resolve_all d imports) (λ rest. ok (r ∷ rest)) e₁ in
    let (same, single) = admit-ok (resolve_import d imp) r admitted in (rest, cc, single, resolved)

resolve_all-nil :
    (d : Option Defaults) (rs : List ResolvedImport) → resolve_all d [] ≡ ok rs → [] ≡ rs
unfolding resolve_all
resolve_all-nil d rs e = cc

-- What holds of each import's resolution holds of the list that is returned.
pub All-resolve_all :
    (P : ResolvedImport → Type 0) (d : Option Defaults) (imports : List ImportProfile)
    (rs : List ResolvedImport)
    → All
        (λ imp. is_multi_platform_rebuild (resolve_import d imp) ≡ false → P (resolve_import d imp))
        imports
    → resolve_all d imports ≡ ok rs
    → All P rs
All-resolve_all P d [] [] h e = tt
All-resolve_all P d [] (r ∷ rs) h e = cc (resolve_all-nil d (r ∷ rs) e)
All-resolve_all P d (imp ∷ imports) rs h e =
    let (rest, same, single, later) = resolve_all-cons d imp imports rs e in
    subst (All P) (sym same) (h.0 single, All-resolve_all P d imports rest h.1 later)

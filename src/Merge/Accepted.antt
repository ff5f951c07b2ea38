-- ===== src/Merge/Accepted.antt =====
-- What a policy that was accepted can ask for.
use houba.Common.{
  ◌≡◌, refl, sym, ◌∙◌, Bool, true, false, Option, none, some, List, [], ◌∷◌, All, any, or_else,
  arith,
}
use houba.Errors.{ok, is_ok, is_ok-bind}
use houba.Policy.{TransformStep, Defaults, ImportProfile, Spec}
use houba.Policy.Rules.{has_steps, defaults_with, refuse_if}
use houba.Session.{Done}
use houba.Merge.{default_of, or_empty, resolve_import, resolve_all, resolve_imports}

All-of_any-false :
    (p : ImportProfile → Bool) (imports : List ImportProfile)
    → any p imports ≡ false
    → All (λ imp. p imp ≡ false) imports
All-of_any-false p [] h = tt
All-of_any-false p (imp ∷ imports) h = (ground arith, All-of_any-false p imports (ground arith))

refuse_if-ok : (b : Bool) (value : Done) → refuse_if b ≡ ok value → b ≡ false
refuse_if-ok true value h = cc
refuse_if-ok false value h = refl

no_transform :
    (own default : Option (List TransformStep))
    → has_steps own ≡ false
    → has_steps default ≡ false
    → or_empty (or_else own default) ≡ []
no_transform none none h k = refl
no_transform none (some []) h k = refl
no_transform none (some (s ∷ steps)) h k = cc
no_transform (some []) default h k = refl
no_transform (some (s ∷ steps)) default h k = cc

-- A test of the defaults is a test of the field that they give.
default_transform :
    (d : Option Defaults)
    → defaults_with (λ x. has_steps x.transform) d ≡ has_steps (default_of (λ x. x.transform) d)
default_transform none = refl
default_transform (some d) = refl

untransformed :
    (d : Option Defaults) (imp : ImportProfile)
    → defaults_with (λ x. has_steps x.transform) d ≡ false
    → has_steps imp.transform ≡ false
    → (resolve_import d imp).transform ≡ []
unfolding resolve_import
untransformed d imp h k = no_transform imp.transform _ k (sym (default_transform d) ∙ h)

resolve_all-untransformed :
    (d : Option Defaults) (imports : List ImportProfile)
    → defaults_with (λ x. has_steps x.transform) d ≡ false
    → All (λ imp. has_steps imp.transform ≡ false) imports
    → is_ok (resolve_all d imports) ≡ true
unfolding resolve_all
resolve_all-untransformed d [] h k = refl
resolve_all-untransformed d (imp ∷ imports) h k = rw (untransformed d imp h k.0) (
    is_ok-bind (resolve_all d imports) _ (λ rest. refl) ∙ resolve_all-untransformed d imports h k.1)

-- A policy in which neither the defaults nor any import has a transform is resolved whatever its
-- platforms, its variants and their transforms.
pub resolve_imports_variants_unchecked :
    (spec : Spec)
    → defaults_with (λ d. has_steps d.transform) spec.defaults ≡ false
    → any (λ imp. has_steps imp.transform) spec.imports ≡ false
    → is_ok (resolve_imports spec) ≡ true
unfolding resolve_imports
resolve_imports_variants_unchecked spec h k =
    resolve_all-untransformed spec.defaults spec.imports h (All-of_any-false _ spec.imports k)

-- ===== src/Common/Keys.antt =====
-- Keys that share a prefix are compared by what follows it.
use Prim.Native.String
use Prim.Native.String.{String}
use mathlib.Core.Path.{◌≡◌, ap}
use mathlib.Core.List.{List, [], ◌∷◌}
use text.Mathlib.TextLemmas.{append_cancel_left, append_cancel_right}
use houba.Common.Tests.{Bool-eq_of_iff}
use houba.Common.Text.{◌==◌, eq_iff}

-- `a + b` on texts
infixl 65 ◌⊕◌
abbrev pub ◌⊕◌ : String → String → String
◌⊕◌ = String.◌++◌

pub prefix_eq : (p a b : String) → (p ⊕ a == p ⊕ b) ≡ (a == b)
prefix_eq p a b =
    Bool-eq_of_iff _ _
      (λ h. (eq_iff a b).1 (append_cancel_left p a b ((eq_iff (p ⊕ a) (p ⊕ b)).0 h)))
      (λ h. (eq_iff (p ⊕ a) (p ⊕ b)).1 (ap (λ x. p ⊕ x) ((eq_iff a b).0 h)))

pub suffix_eq : (p a b : String) → (a ⊕ p == b ⊕ p) ≡ (a == b)
suffix_eq p a b =
    Bool-eq_of_iff _ _
      (λ h. (eq_iff a b).1 (append_cancel_right a b p ((eq_iff (a ⊕ p) (b ⊕ p)).0 h)))
      (λ h. (eq_iff (a ⊕ p) (b ⊕ p)).1 (ap (λ x. x ⊕ p) ((eq_iff a b).0 h)))

-- `sep.join(xs)`
abbrev pub join_by : String → List String → String
join_by sep [] = ""
join_by sep (x ∷ []) = x
join_by sep (x ∷ y ∷ xs) = x ⊕ (sep ⊕ join_by sep (y ∷ xs))

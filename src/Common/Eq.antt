-- ===== src/Common/Eq.antt =====
-- Equality tests as instances, and membership by such a test (`k in xs`).
use mathlib.Core.Path.{◌≡◌, refl, sym}
use mathlib.Core.Logic.{◌↔◌}
use mathlib.Core.Bool.{Bool, true, false, ◌&&◌, ◌||◌}
use mathlib.Core.List.{List, [], ◌∷◌, ◌++◌}
use Prim.Native.String.{String}
use native.Mathlib.Omega.{arith}
use text.Mathlib.Text.{◌==◌}
use text.Mathlib.TextEquality.{eq_iff}
use houba.Common.Lists.{filter}
use houba.Common.Tests.{Bool-eq_of_iff}

pub record Eq {ℓ} (A : Type ℓ) : Type ℓ where
  pub beq : A → A → Bool
  pub beq_iff : (a b : A) → (beq a b ≡ true) ↔ (a ≡ b)

instance abbrev pub string_eq : Eq String
string_eq = record { beq = ◌==◌; beq_iff = eq_iff }

module _ {ℓ κ} {A : Type ℓ} {B : Type κ} ⦃d : Eq A⦄ ⦃e : Eq B⦄ where
  abbrev pair_beq : A × B → A × B → Bool
  pair_beq p q = d.beq p.0 q.0 && e.beq p.1 q.1

  pub pair_beq_iff : (p q : A × B) → (pair_beq p q ≡ true) ↔ (p ≡ q)
  pair_beq_iff (a, b) (x, y) = (
    λ h. ground (arith, d.beq_iff a x, e.beq_iff b y),
    λ h. ground (arith, d.beq_iff a x, e.beq_iff b y),
  )

  instance abbrev pub pair_eq : Eq (A × B)
  pair_eq = record { beq = pair_beq; beq_iff = pair_beq_iff }

module _ {ℓ} {A : Type ℓ} ⦃e : Eq A⦄ where
  unfoldable pub elem : A → List A → Bool
  elem k [] = false
  elem k (x ∷ xs) = e.beq x k || elem k xs

  pub beq_symm : (a b : A) → e.beq a b ≡ e.beq b a
  beq_symm a b =
      Bool-eq_of_iff (e.beq a b) (e.beq b a) (λ h. (e.beq_iff b a).1 (sym ((e.beq_iff a b).0 h)))
        (λ h. (e.beq_iff a b).1 (sym ((e.beq_iff b a).0 h)))

  pub elem-append : (k : A) (xs ys : List A) → elem k (xs ++ ys) ≡ (elem k xs || elem k ys)
  unfolding elem
  elem-append k [] ys = refl
  elem-append k (x ∷ xs) ys = ground (arith, elem-append k xs ys)

  pub elem-filter : (k : A) (p : A → Bool) (xs : List A) → elem k (filter p xs) ≡ (p k && elem k xs)
  unfolding elem
  elem-filter k p [] = ground arith
  elem-filter k p (x ∷ xs) = ground (arith, elem-filter k p xs, e.beq_iff x k)

  -- The members of a duplicate-free list.
  abbrev pub IsDistinct : List A → Type 0
  IsDistinct [] = Unit
  IsDistinct (x ∷ xs) = (elem x xs ≡ false) × IsDistinct xs

  -- `s.add(k)` on a set kept as a list without repetitions.
  unfoldable pub add : A → List A → List A
  unfolding elem
  add k xs = let seen = elem k xs in elim seen [ true ↦ xs | false ↦ xs ++ k ∷ [] ]

  pub elem-add : (k j : A) (xs : List A) → elem j (add k xs) ≡ (e.beq k j || elem j xs)
  unfolding add
  elem-add k j xs = ground (arith, elem-append j xs (k ∷ []), e.beq_iff k j)

  -- `s.update(ks)`
  unfoldable pub add_all : List A → List A → List A
  unfolding add
  add_all [] xs = xs
  add_all (k ∷ ks) xs = add_all ks (add k xs)

  pub elem-add_all : (j : A) (ks xs : List A) → elem j (add_all ks xs) ≡ (elem j ks || elem j xs)
  unfolding add_all elem
  elem-add_all j [] xs = refl
  elem-add_all j (k ∷ ks) xs = ground (arith, elem-add_all j ks (add k xs), elem-add k j xs)

  -- A list with no member is empty.
  pub elem-nil : (xs : List A) → ((x : A) → elem x xs ≡ false) → xs ≡ []
  unfolding elem
  elem-nil [] h = refl
  elem-nil (x ∷ xs) h = ground (arith, h x, e.beq_iff x x)

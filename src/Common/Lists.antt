-- ===== src/Common/Lists.antt =====
-- Lists measured by native numbers and filtered by Boolean tests, under the library's names.
use Prim.Native.Nat.{ℕ, suc, ◌+◌, ◌≤◌}
use mathlib.Core.Path.{◌≡◌, refl}
use mathlib.Core.Bool.{Bool, true, false, ◌&&◌, ◌||◌}
use mathlib.Core.List.{List, [], ◌∷◌, ◌++◌, map}
use native.Mathlib.Omega.{arith}
use mathlib.Core.Logic.{inl, inr}
use houba.Common.Tests.{if◌then◌else◌, Bool-cases}

module _ {ℓ} {A : Type ℓ} where
  abbrev pub length : List A → ℕ
  length [] = 0
  length (x ∷ xs) = suc (length xs)

  -- `[x for x in xs if p(x)]`
  abbrev pub filter : (A → Bool) → List A → List A
  filter p [] = []
  filter p (x ∷ xs) = let rest = filter p xs in if p x then x ∷ rest else rest

  abbrev pub any : (A → Bool) → List A → Bool
  any p [] = false
  any p (x ∷ xs) = p x || any p xs

  abbrev pub all : (A → Bool) → List A → Bool
  all p [] = true
  all p (x ∷ xs) = p x && all p xs

  -- `sum(1 for x in xs if p(x))`
  abbrev pub count_if : (A → Bool) → List A → ℕ
  count_if p [] = 0
  count_if p (x ∷ xs) = (if p x then 1 else 0) + count_if p xs

  -- `sum(f(x) for x in xs)`
  abbrev pub sum_by : (A → ℕ) → List A → ℕ
  sum_by f [] = 0
  sum_by f (x ∷ xs) = f x + sum_by f xs

  abbrev pub All {κ} : (A → Type κ) → List A → Type κ
  All P [] = Unit
  All P (x ∷ xs) = P x × All P xs

  -- Every element is related to all later ones.
  abbrev pub AllPairs {κ} : (A → A → Type κ) → List A → Type κ
  AllPairs R [] = Unit
  AllPairs R (x ∷ xs) = All (R x) xs × AllPairs R xs

module _ {ℓ} {A : Type ℓ} where
  pub length-append : (xs ys : List A) → length (xs ++ ys) ≡ length xs + length ys
  length-append [] ys = omega arith
  length-append (x ∷ xs) ys = omega (arith, length-append xs ys)

  pub count_if-le-length : (p : A → Bool) (xs : List A) → count_if p xs ≤ length xs
  count_if-le-length p [] = omega arith
  count_if-le-length p (x ∷ xs) = ground (arith, count_if-le-length p xs)

  pub all-append : (p : A → Bool) (xs ys : List A) → all p (xs ++ ys) ≡ (all p xs && all p ys)
  all-append p [] ys = refl
  all-append p (x ∷ xs) ys = ground (arith, all-append p xs ys)

  pub any-append : (p : A → Bool) (xs ys : List A) → any p (xs ++ ys) ≡ (any p xs || any p ys)
  any-append p [] ys = refl
  any-append p (x ∷ xs) ys = ground (arith, any-append p xs ys)

  pub All-filter {κ} :
      (P : A → Type κ) (p : A → Bool) (xs : List A) → All P xs → All P (filter p xs)
  All-filter P p [] h = tt
  All-filter P p (x ∷ xs) h = elim (Bool-cases (p x)) [
    | inl e ↦ rw e (h.0, All-filter P p xs h.1)
    | inr e ↦ rw e (All-filter P p xs h.1)
  ]

  pub AllPairs-filter {κ} :
      (R : A → A → Type κ) (p : A → Bool) (xs : List A) → AllPairs R xs → AllPairs R (filter p xs)
  AllPairs-filter R p [] h = tt
  AllPairs-filter R p (x ∷ xs) h = elim (Bool-cases (p x)) [
    | inl e ↦ rw e (All-filter (R x) p xs h.0, AllPairs-filter R p xs h.1)
    | inr e ↦ rw e (AllPairs-filter R p xs h.1)
  ]

  pub All-weaken {κ μ} :
      (P : A → Type κ) (Q : A → Type μ) (xs : List A) → ((x : A) → P x → Q x) → All P xs → All Q xs
  All-weaken P Q [] f h = tt
  All-weaken P Q (x ∷ xs) f h = (f x h.0, All-weaken P Q xs f h.1)

  pub All-of_forall {κ} : (P : A → Type κ) (xs : List A) → ((x : A) → P x) → All P xs
  All-of_forall P [] f = tt
  All-of_forall P (x ∷ xs) f = (f x, All-of_forall P xs f)

  pub AllPairs-weaken {κ μ} :
      (R : A → A → Type κ) (S : A → A → Type μ) (xs : List A)
      → ((x y : A) → R x y → S x y)
      → AllPairs R xs
      → AllPairs S xs
  AllPairs-weaken R S [] f h = tt
  AllPairs-weaken R S (x ∷ xs) f h =
      (All-weaken (R x) (S x) xs (f x) h.0, AllPairs-weaken R S xs f h.1)

  pub any_congr : (p q : A → Bool) (xs : List A) → All (λ x. p x ≡ q x) xs → any p xs ≡ any q xs
  any_congr p q [] h = refl
  any_congr p q (x ∷ xs) h = ground (arith, any_congr p q xs h.1)

  pub count_if-eq-zero :
      (p : A → Bool) (xs : List A) → All (λ x. p x ≡ false) xs → count_if p xs ≡ 0
  count_if-eq-zero p [] h = refl
  count_if-eq-zero p (x ∷ xs) h = ground (arith, count_if-eq-zero p xs h.1)

  pub All-none_counted :
      (p : A → Bool) (xs : List A) → count_if p xs ≡ 0 → All (λ x. p x ≡ false) xs
  All-none_counted p [] h = tt
  All-none_counted p (x ∷ xs) h = (ground (arith), All-none_counted p xs (ground (arith)))

module _ {ℓ κ} {A : Type ℓ} {B : Type κ} (f : A → B) where
  pub All-map {μ} : (P : B → Type μ) (xs : List A) → All (λ x. P (f x)) xs → All P (map f xs)
  All-map P [] h = tt
  All-map P (x ∷ xs) h = (h.0, All-map P xs h.1)

  pub All-of_map {μ} : (P : B → Type μ) (xs : List A) → All P (map f xs) → All (λ x. P (f x)) xs
  All-of_map P [] h = tt
  All-of_map P (x ∷ xs) h = (h.0, All-of_map P xs h.1)

  pub AllPairs-map {μ} :
      (R : B → B → Type μ) (xs : List A)
      → AllPairs (λ x y. R (f x) (f y)) xs
      → AllPairs R (map f xs)
  AllPairs-map R [] h = tt
  AllPairs-map R (x ∷ xs) h = (All-map (R (f x)) xs h.0, AllPairs-map R xs h.1)

  pub AllPairs-of_map {μ} :
      (R : B → B → Type μ) (xs : List A)
      → AllPairs R (map f xs)
      → AllPairs (λ x y. R (f x) (f y)) xs
  AllPairs-of_map R [] h = tt
  AllPairs-of_map R (x ∷ xs) h = (All-of_map (R (f x)) xs h.0, AllPairs-of_map R xs h.1)

  pub sum_by-map : (g : B → ℕ) (xs : List A) → sum_by g (map f xs) ≡ sum_by (λ x. g (f x)) xs
  sum_by-map g [] = refl
  sum_by-map g (x ∷ xs) = omega (arith, sum_by-map g xs)

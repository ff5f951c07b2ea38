-- ===== src/Common/Order.antt =====
-- Python's stable `sorted` over a Boolean order, and what it keeps.
use mathlib.Core.Path.{◌≡◌, refl, ◌∙◌}
use mathlib.Core.Bool.{Bool, true, false, ◌||◌}
use mathlib.Core.Logic.{inl, inr}
use mathlib.Core.List.{List, [], ◌∷◌}
use Prim.Native.Nat.{ℕ, suc, ◌+◌}
use Prim.Native.String.{String}
use native.Mathlib.Omega.{arith}
use houba.Common.Tests.{if◌then◌else◌, Bool-cases}
use houba.Common.Lists.{length, count_if, All, AllPairs, any, sum_by}
use houba.Common.Text.{str_leb, str_leb_total, str_leb_trans}
use houba.Common.Eq.{Eq, elem, elem-nil, string_eq}

module _ {ℓ} {A : Type ℓ} (leq : A → A → Bool) where
  insert : A → List A → List A
  insert x [] = x ∷ []
  insert x (y ∷ ys) = let later = insert x ys in if leq x y then x ∷ y ∷ ys else y ∷ later

  -- Equal elements keep their order: an element goes before those that follow it in the input.
  unfoldable pub sorted_by : List A → List A
  unfolding insert
  sorted_by [] = []
  sorted_by (x ∷ xs) = insert x (sorted_by xs)

  -- Every element is at or before all later ones.
  abbrev pub IsSortedBy : List A → Type 0
  IsSortedBy = AllPairs (λ x y. leq x y ≡ true)

  count_if-insert :
      (p : A → Bool) (x : A) (xs : List A) → count_if p (insert x xs) ≡ count_if p (x ∷ xs)
  unfolding insert
  count_if-insert p x [] = refl
  count_if-insert p x (y ∷ ys) = ground (arith, count_if-insert p x ys)

  pub count_if-sorted_by : (p : A → Bool) (xs : List A) → count_if p (sorted_by xs) ≡ count_if p xs
  unfolding sorted_by
  count_if-sorted_by p [] = refl
  count_if-sorted_by p (x ∷ xs) =
      omega (arith, count_if-insert p x (sorted_by xs), count_if-sorted_by p xs)

  length-insert : (x : A) (xs : List A) → length (insert x xs) ≡ suc (length xs)
  unfolding insert
  length-insert x [] = refl
  length-insert x (y ∷ ys) = ground (arith, length-insert x ys)

  pub length-sorted_by : (xs : List A) → length (sorted_by xs) ≡ length xs
  unfolding sorted_by
  length-sorted_by [] = refl
  length-sorted_by (x ∷ xs) = omega (arith, length-insert x (sorted_by xs), length-sorted_by xs)

  sum_by-insert : (f : A → ℕ) (x : A) (xs : List A) → sum_by f (insert x xs) ≡ f x + sum_by f xs
  unfolding insert
  sum_by-insert f x [] = refl
  sum_by-insert f x (y ∷ ys) = ground (arith, sum_by-insert f x ys)

  pub sum_by-sorted_by : (f : A → ℕ) (xs : List A) → sum_by f (sorted_by xs) ≡ sum_by f xs
  unfolding sorted_by
  sum_by-sorted_by f [] = refl
  sum_by-sorted_by f (x ∷ xs) =
      omega (arith, sum_by-insert f x (sorted_by xs), sum_by-sorted_by f xs)

  any-insert : (p : A → Bool) (x : A) (xs : List A) → any p (insert x xs) ≡ (p x || any p xs)
  unfolding insert
  any-insert p x [] = refl
  any-insert p x (y ∷ ys) = ground (arith, any-insert p x ys)

  pub any-sorted_by : (p : A → Bool) (xs : List A) → any p (sorted_by xs) ≡ any p xs
  unfolding sorted_by
  any-sorted_by p [] = refl
  any-sorted_by p (x ∷ xs) = ground (arith, any-insert p x (sorted_by xs), any-sorted_by p xs)

  module _ {κ} (P : A → Type κ) where
    All-insert : (x : A) (xs : List A) → P x → All P xs → All P (insert x xs)
    unfolding insert
    All-insert x [] h k = (h, tt)
    All-insert x (y ∷ ys) h k = elim (Bool-cases (leq x y)) [
      | inl e ↦ rw e (h, k)
      | inr e ↦ rw e (k.0, All-insert x ys h k.1)
    ]

    pub All-sorted_by : (xs : List A) → All P xs → All P (sorted_by xs)
    unfolding sorted_by
    All-sorted_by [] h = tt
    All-sorted_by (x ∷ xs) h = All-insert x (sorted_by xs) h.0 (All-sorted_by xs h.1)

  module _ {κ} (R : A → A → Type κ) (symm : (a b : A) → R a b → R b a) where
    AllPairs-insert :
        (x : A) (xs : List A) → All (R x) xs → AllPairs R xs → AllPairs R (insert x xs)
    unfolding insert
    AllPairs-insert x [] h k = (tt, tt)
    AllPairs-insert x (y ∷ ys) h k = elim (Bool-cases (leq x y)) [
      | inl e ↦ rw e (h, k)
      | inr e ↦ rw e (All-insert (R y) x ys (symm x y h.0) k.0, AllPairs-insert x ys h.1 k.1)
    ]

    -- A symmetric relation between all pairs survives the sort.
    pub AllPairs-sorted_by : (xs : List A) → AllPairs R xs → AllPairs R (sorted_by xs)
    unfolding sorted_by
    AllPairs-sorted_by [] h = tt
    AllPairs-sorted_by (x ∷ xs) h =
        AllPairs-insert x (sorted_by xs) (All-sorted_by (R x) xs h.0) (AllPairs-sorted_by xs h.1)

  module _ (total : (a b : A) → (leq a b || leq b a) ≡ true)
      (trans : (a b c : A) → leq a b ≡ true → leq b c ≡ true → leq a c ≡ true) where
    All-leq_trans :
        (x y : A) (ys : List A)
        → leq x y ≡ true
        → All (λ z. leq y z ≡ true) ys
        → All (λ z. leq x z ≡ true) ys
    All-leq_trans x y [] h k = tt
    All-leq_trans x y (z ∷ zs) h k = (trans x y z h k.0, All-leq_trans x y zs h k.1)

    insert-IsSortedBy : (x : A) (xs : List A) → IsSortedBy xs → IsSortedBy (insert x xs)
    unfolding insert
    insert-IsSortedBy x [] h = (tt, tt)
    insert-IsSortedBy x (y ∷ ys) h = elim (Bool-cases (leq x y)) [
      | inl e ↦ rw e ((e, All-leq_trans x y ys e h.0), h)
      | inr e ↦
          let flipped : leq y x ≡ true = ground (arith, total x y) in
          rw e (All-insert (λ z. leq y z ≡ true) x ys flipped h.0, insert-IsSortedBy x ys h.1)
    ]

    pub sorted_by-IsSortedBy : (xs : List A) → IsSortedBy (sorted_by xs)
    unfolding sorted_by
    sorted_by-IsSortedBy [] = tt
    sorted_by-IsSortedBy (x ∷ xs) = insert-IsSortedBy x (sorted_by xs) (sorted_by-IsSortedBy xs)

module _ {ℓ} {A : Type ℓ} ⦃e : Eq A⦄ where
  elem-any : (k : A) (xs : List A) → elem k xs ≡ any (λ x. e.beq x k) xs
  unfolding elem
  elem-any k [] = refl
  elem-any k (x ∷ xs) = ground (arith, elem-any k xs)

  pub elem-sorted_by :
      (leq : A → A → Bool) (k : A) (xs : List A) → elem k (sorted_by leq xs) ≡ elem k xs
  elem-sorted_by leq k xs =
      rw (elem-any k (sorted_by leq xs), elem-any k xs) (any-sorted_by leq (λ x. e.beq x k) xs)

-- `sorted(xs)` on texts
unfoldable pub sorted : List String → List String
unfolding sorted_by str_leb
sorted xs = sorted_by str_leb xs

pub elem-sorted : (k : String) (xs : List String) → elem k (sorted xs) ≡ elem k xs
unfolding sorted
elem-sorted k xs = elem-sorted_by str_leb k xs

abbrev pub IsSorted : List String → Type 0
IsSorted = IsSortedBy str_leb

pub sorted-IsSorted : (xs : List String) → IsSorted (sorted xs)
unfolding sorted
sorted-IsSorted xs = sorted_by-IsSortedBy str_leb str_leb_total str_leb_trans xs

pub length-sorted : (xs : List String) → length (sorted xs) ≡ length xs
unfolding sorted
length-sorted xs = length-sorted_by str_leb xs

pub sorted_nil : (xs : List String) → ((x : String) → elem x xs ≡ false) → sorted xs ≡ []
sorted_nil xs h = elem-nil (sorted xs) (λ x. elem-sorted x xs ∙ h x)

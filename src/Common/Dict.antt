-- ===== src/Common/Dict.antt =====
-- Python's `dict`: the entries in order of insertion. Writing a key that is there keeps its place.
use mathlib.Core.Path.{◌≡◌, refl}
use mathlib.Core.Bool.{Bool, true, false, ◌||◌}
use mathlib.Core.Option.{Option, none, some}
use mathlib.Core.List.{List, [], ◌∷◌}
use native.Mathlib.Omega.{arith}
use houba.Common.Tests.{if◌then◌else◌, is_some}
use houba.Common.Lists.{All, AllPairs}
use houba.Common.Eq.{Eq, elem, IsDistinct}

abbrev pub Dict {ℓ κ} : Type ℓ → Type κ → Type (ℓ ⊔ κ)
Dict K V = List (K × V)

module _ {ℓ κ} {K : Type ℓ} {V : Type κ} where
  -- `list(d)`
  abbrev pub keys : Dict K V → List K
  keys [] = []
  keys (x ∷ d) = x.0 ∷ keys d

  -- `d.values()`
  abbrev pub values : Dict K V → List V
  values [] = []
  values (x ∷ d) = x.1 ∷ values d

module _ {ℓ κ} {K : Type ℓ} {V : Type κ} ⦃e : Eq K⦄ where
  -- `d.get(k)`
  unfoldable pub get : K → Dict K V → Option V
  get k [] = none
  get k ((j, v) ∷ d) = if e.beq j k then some v else get k d

  -- `d[k] = v`
  unfoldable pub put : K → V → Dict K V → Dict K V
  put k v [] = (k, v) ∷ []
  put k v ((j, w) ∷ d) = let later = put k v d in if e.beq j k then (j, v) ∷ d else (j, w) ∷ later

  -- `k in d`
  unfoldable pub has : K → Dict K V → Bool
  unfolding elem
  has k d = elem k (keys d)

  -- `d.update(other)`
  unfoldable pub update : Dict K V → Dict K V → Dict K V
  unfolding put
  update [] d = d
  update ((k, v) ∷ other) d = update other (put k v d)

  pub get-put :
      (k j : K) (v : V) (d : Dict K V) → get j (put k v d) ≡ (if e.beq k j then some v else get j d)
  unfolding get put
  get-put k j v [] = refl
  get-put k j v ((i, w) ∷ d) =
      ground (arith, e.beq_iff k j, e.beq_iff i k, e.beq_iff i j, get-put k j v d)

  pub has-put : (k j : K) (v : V) (d : Dict K V) → has j (put k v d) ≡ (e.beq k j || has j d)
  unfolding has put
  has-put k j v [] = refl
  has-put k j v ((i, w) ∷ d) =
      ground (arith, e.beq_iff k j, e.beq_iff i k, e.beq_iff i j, has-put k j v d)

  pub has-is_some : (k : K) (d : Dict K V) → has k d ≡ is_some (get k d)
  unfolding has get
  has-is_some k [] = refl
  has-is_some k ((j, v) ∷ d) = ground (arith, has-is_some k d)

  pub has_of_get : (k : K) (d : Dict K V) {v : V} → get k d ≡ some v → has k d ≡ true
  has_of_get k d h = ground (arith, has-is_some k d)

  -- No key occurs twice: what a `dict` guarantees.
  abbrev pub IsDict : Dict K V → Type 0
  IsDict d = IsDistinct (keys d)

  put-has_ne :
      (k j : K) (v : V) (d : Dict K V)
      → e.beq k j ≡ false
      → has j d ≡ false
      → has j (put k v d) ≡ false
  put-has_ne k j v d h n = ground (arith, has-put k j v d)

  pub put-IsDict : (k : K) (v : V) (d : Dict K V) → IsDict d → IsDict (put k v d)
  unfolding put has elem
  put-IsDict k v [] h = (refl, tt)
  put-IsDict k v ((j, w) ∷ d) h =
      ground (arith, put-IsDict k v d h.1, put-has_ne k j v d, e.beq_iff k j, e.beq_iff j k)

  pub All-keys : (k : K) (d : Dict K V) → elem k (keys d) ≡ false → All (λ x. e.beq k x.0 ≡ false) d
  unfolding elem
  All-keys k [] h = tt
  All-keys k ((j, v) ∷ d) h =
      (ground (arith, e.beq_iff k j, e.beq_iff j k), All-keys k d (ground arith))

  -- Two entries of a dictionary have two keys.
  pub AllPairs-of_IsDict : (d : Dict K V) → IsDict d → AllPairs (λ x y. e.beq x.0 y.0 ≡ false) d
  AllPairs-of_IsDict [] h = tt
  AllPairs-of_IsDict ((k, v) ∷ d) h = (All-keys k d h.0, AllPairs-of_IsDict d h.1)

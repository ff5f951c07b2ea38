-- ===== src/Common/Values.antt =====
-- The values of a dictionary, by their keys.
use mathlib.Core.Path.{◌≡◌, ap, ◌∙◌}
use mathlib.Core.Logic.{inl, inr}
use mathlib.Core.Bool.{Bool, true}
use mathlib.Core.Option.{Option, some}
use mathlib.Core.List.{[], ◌∷◌}
use native.Mathlib.Omega.{arith}
use houba.Common.Tests.{if◌then◌else◌, Bool-cases}
use houba.Common.Lists.{any}
use houba.Common.Eq.{Eq}
use houba.Common.Dict.{Dict, get, put, get-put, IsDict, values, has, has_of_get}

module _ {ℓ κ} {K : Type ℓ} {V : Type κ} ⦃e : Eq K⦄ where
  -- Writing a key by what it holds.
  pub get-put_by :
      (f : Option V → V) (k j : K) (d : Dict K V)
      → get j (put k (f (get k d)) d) ≡ (if e.beq k j then some (f (get j d)) else get j d)
  get-put_by f k j d = elim (Bool-cases (e.beq k j)) [
    | inl same ↦
        get-put k j (f (get k d)) d
        ∙ rw same (ap (λ i. some (f (get i d))) ((e.beq_iff k j).0 same))
    | inr other ↦ get-put k j (f (get k d)) d ∙ rw other
  ]

  module _ (p : V → Bool) where
    -- A test that the value under a key passes is passed by one of the values, and conversely.
    pub any-of_get :
        (k : K) (v : V) (d : Dict K V) → get k d ≡ some v → p v ≡ true → any p (values d) ≡ true
    unfolding get
    any-of_get k v [] h q = cc
    any-of_get k v ((j, w) ∷ d) h q = ground (arith, any-of_get k v d)

    pub get-of_any :
        (d : Dict K V)
        → IsDict d
        → any p (values d) ≡ true
        → (k : K) × (v : V) × (get k d ≡ some v) × (p v ≡ true)
    unfolding get has
    get-of_any [] u h = cc
    get-of_any ((j, w) ∷ d) u h = elim (Bool-cases (p w)) [
      | inl here ↦ (j, w, ground (arith, e.beq_iff j j), here)
      | inr not_here ↦
          let (k, v, g, q) = get-of_any d u.1 (ground arith) in
          (k, v, ground (arith, e.beq_iff j k, has_of_get k d g, u.0), q)
    ]

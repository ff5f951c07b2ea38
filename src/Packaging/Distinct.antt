-- ===== src/Packaging/Distinct.antt =====
-- The collision check of knock/domain/packaging.py lets only paths through that differ in lower case.
use houba.Common.{
  ℕ, ◌+◌, ◌≤◌, String, ◌≡◌, false, List, [], ◌∷◌, ◌++◌, any, AllPairs, length, ltb, count_if, arith,
  length-append, All-none_counted, if◌then◌else◌,
}
use houba.Common.Dict.{Dict, get, put, values, get-put}
use houba.Common.Eq.{string_eq}
use houba.Common.Text.{◌==◌, eq_refl, eq_iff}
use houba.Packaging.{or_new, group_paths, has_collision}

-- How many paths are filed under a key.
abbrev width : String → Dict String (List String) → ℕ
width k d = length (or_new (get k d))

width-put :
    (k j path : String) (d : Dict String (List String))
    → width j (put k (or_new (get k d) ++ path ∷ []) d) ≡ width j d + (if k == j then 1 else 0)
width-put k j path d =
    rw (get-put k j (or_new (get k d) ++ path ∷ []) d)
      (ground (arith, eq_iff k j, length-append (or_new (get k d)) (path ∷ [])))

width-narrow :
    (k : String) (d : Dict String (List String))
    → any (λ same. ltb 1 (length same)) (values d) ≡ false
    → width k d ≤ 1
unfolding get
width-narrow k [] h = omega arith
width-narrow k ((j, paths) ∷ d) h = ground (arith, width-narrow k d)

module _ (lower : String → String) where
  group_paths-width :
      (k : String) (paths : List String) (d : Dict String (List String))
      → width k (group_paths lower paths d) ≡ width k d + count_if (λ p. lower p == k) paths
  unfolding group_paths
  group_paths-width k [] d = omega arith
  group_paths-width k (p ∷ paths) d = ground (
    arith,
    width-put (lower p) k p d,
    group_paths-width k paths (put (lower p) (or_new (get (lower p) d) ++ p ∷ []) d),
  )

  counted_once :
      (k : String) (paths : List String)
      → has_collision lower paths ≡ false
      → count_if (λ p. lower p == k) paths ≤ 1
  unfolding has_collision get
  counted_once k paths h =
      omega (arith, group_paths-width k paths [], width-narrow k (group_paths lower paths []) h)

  abbrev pub AreDistinct : List String → Type 0
  AreDistinct = AllPairs (λ a b. (lower b == lower a) ≡ false)

  distinct :
      (paths : List String)
      → ((k : String) → count_if (λ p. lower p == k) paths ≤ 1)
      → AreDistinct paths
  distinct [] h = tt
  distinct (p ∷ paths) h = (
    All-none_counted (λ q. lower q == lower p) paths
        (ground (arith, h (lower p), eq_refl (lower p))),
    distinct paths (λ k. ground (arith, h k)),
  )

  pub has_collision-AreDistinct :
      (paths : List String) → has_collision lower paths ≡ false → AreDistinct paths
  has_collision-AreDistinct paths h = distinct paths (λ k. counted_once k paths h)

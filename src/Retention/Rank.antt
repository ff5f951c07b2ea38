-- ===== src/Retention/Rank.antt =====
-- Which tags `select_retention_excess` selects, without sorting.
use houba.Common.{
  ℕ, ◌+◌, ◌-◌, ◌≤◌, String, ◌≡◌, refl, sym, ◌∙◌, Bool, true, false, not, ◌&&◌, ◌||◌, List, [], ◌∷◌,
  arith, length, any, count_if, All, AllPairs, All-weaken, All-of_forall, AllPairs-filter,
  any_congr, count_if-eq-zero,
}
use houba.Common.Int.{ℤ, pos, leb_ℤ}
use houba.Common.Text.{str_leb_total, str_leb_trans, str_leb_antisymm, ◌==◌, eq_iff}
use houba.Common.Eq.{elem, string_eq}
use houba.Common.Dict.{Dict, has, IsDict, AllPairs-of_IsDict}
use houba.Common.Order.{
  sorted_by, elem-sorted, IsSortedBy, sorted_by-IsSortedBy, AllPairs-sorted_by, count_if-sorted_by,
  any-sorted_by, length-sorted, length-sorted_by,
}
use houba.Retention.{newest_first, is_older, excess_from, candidates, select_retention_excess}

-- `d` ranks strictly before `c`: it is newer, or as new and later by name.
pub outranks : String × ℕ → String × ℕ → Bool
unfolding newest_first
outranks d c = not (newest_first c d)

newest_first_total : (a b : String × ℕ) → (newest_first a b || newest_first b a) ≡ true
unfolding newest_first
newest_first_total a b = ground (arith, str_leb_total a.0 b.0)

newest_first_trans :
    (a b c : String × ℕ)
    → newest_first a b ≡ true
    → newest_first b c ≡ true
    → newest_first a c ≡ true
unfolding newest_first
newest_first_trans (s, a) (t, b) (u, c) h k = ground (arith, str_leb_trans u t s)

-- Different names never tie.
outranks_of_newest_first :
    (a b : String × ℕ) → newest_first a b ≡ true → (a.0 == b.0) ≡ false → outranks a b ≡ true
unfolding outranks
outranks_of_newest_first (s, a) (t, b) h n = ground (arith, str_leb_antisymm s t, eq_iff s t)

-- Strictly descending: what the sort makes of the entries of a dictionary.
abbrev IsRanked : List (String × ℕ) → Type 0
IsRanked = AllPairs (λ a b. (newest_first a b ≡ true) × (outranks a b ≡ true))

IsRanked-of_sorted :
    (xs : List (String × ℕ))
    → IsSortedBy newest_first xs
    → AllPairs (λ a b. (a.0 == b.0) ≡ false) xs
    → IsRanked xs
IsRanked-of_sorted [] h k = tt
IsRanked-of_sorted (x ∷ xs) h k = (both xs h.0 k.0, IsRanked-of_sorted xs h.1 k.1)
  where
    both :
        (ys : List (String × ℕ))
        → All (λ y. newest_first x y ≡ true) ys
        → All (λ y. (x.0 == y.0) ≡ false) ys
        → All (λ y. (newest_first x y ≡ true) × (outranks x y ≡ true)) ys
    both [] h k = tt
    both (y ∷ ys) h k = ((h.0, outranks_of_newest_first x y h.0 k.0), both ys h.1 k.1)

module _ (keep older_than : ℤ) (now : ℕ) where
  -- The rule for one entry among `ranked`, of which `rank` better ones have been passed.
  is_excess : ℕ → List (String × ℕ) → String × ℕ → Bool
  is_excess rank ranked c =
      leb_ℤ keep (pos (rank + count_if (λ d. outranks d c) ranked)) && is_older older_than now c.1

  is_excess-cons :
      (rank : ℕ) (x c : String × ℕ) (xs : List (String × ℕ))
      → outranks x c ≡ true
      → is_excess rank (x ∷ xs) c ≡ is_excess (rank + 1) xs c
  unfolding is_excess
  is_excess-cons rank x c xs h = ground arith

  is_excess-head :
      (rank : ℕ) (x : String × ℕ) (xs : List (String × ℕ))
      → All (λ y. newest_first x y ≡ true) xs
      → is_excess rank (x ∷ xs) x ≡ (leb_ℤ keep (pos rank) && is_older older_than now x.1)
  unfolding is_excess outranks
  is_excess-head rank x xs h = ground (
    arith,
    newest_first_total x x,
    count_if-eq-zero (λ d. not (newest_first x d)) xs (All-weaken _ _ xs (λ y e. rw e) h),
  )

  elem-excess_from :
      (rank : ℕ) (xs : List (String × ℕ)) (t : String)
      → IsRanked xs
      → elem t (excess_from keep older_than now rank xs)
        ≡ any (λ c. (c.0 == t) && is_excess rank xs c) xs
  unfolding excess_from elem
  elem-excess_from rank [] t h = refl
  elem-excess_from rank (x ∷ xs) t h =
      let better : All (λ y. newest_first x y ≡ true) xs = All-weaken _ _ xs (λ y e. e.0) h.0 in
      let later : any (λ c. (c.0 == t) && is_excess rank (x ∷ xs) c) xs
          ≡ any (λ c. (c.0 == t) && is_excess (rank + 1) xs c) xs =
        any_congr _ _ xs (All-weaken _ _ xs (λ c e. rw (is_excess-cons rank x c xs e.1)) h.0) in
      rw (later, is_excess-head rank x xs better)
        (ground (arith, elem-excess_from (rank + 1) xs t h.1))

  -- The rule for the whole dictionary.
  pub is_retention_excess : List String → Dict String ℕ → String × ℕ → Bool
  unfolding is_excess
  is_retention_excess protected kept c = is_excess 0 (candidates protected kept) c

module _ (kept : Dict String ℕ) (keep older_than : ℤ) (now : ℕ) (protected : List String) where
  ranked : List (String × ℕ)
  ranked = sorted_by newest_first (candidates protected kept)

  ranked-IsRanked : IsDict kept → IsRanked ranked
  unfolding ranked candidates
  ranked-IsRanked h =
      let names =
        AllPairs-filter _ (λ c. not (elem c.0 protected)) kept (AllPairs-of_IsDict kept h) in
      IsRanked-of_sorted ranked
        (sorted_by-IsSortedBy newest_first newest_first_total newest_first_trans _)
        (AllPairs-sorted_by newest_first (λ a b. (a.0 == b.0) ≡ false) differ_symm _ names)
    where
      differ_symm : (a b : String × ℕ) → (a.0 == b.0) ≡ false → (b.0 == a.0) ≡ false
      differ_symm a b e = ground (arith, eq_iff a.0 b.0, eq_iff b.0 a.0)

  rule-ranked :
      (c : String × ℕ)
      → is_excess keep older_than now 0 ranked c
        ≡ is_retention_excess keep older_than now protected kept c
  unfolding is_retention_excess is_excess ranked
  rule-ranked c =
      rw (count_if-sorted_by newest_first (λ d. outranks d c) (candidates protected kept))

  -- From a dictionary, the selected tags are exactly the unprotected ones that are older than the
  -- window and that at least `keep` unprotected tags outrank (imported later, or at the same
  -- instant under a greater name).
  pub elem-select_retention_excess :
      (t : String)
      → IsDict kept
      → elem t (select_retention_excess kept keep older_than now protected)
        ≡ any
            (λ c. (c.0 == t) && is_retention_excess keep older_than now protected kept c)
            (candidates protected kept)
  unfolding ranked
  elem-select_retention_excess t h =
      unfold select_retention_excess in
      elem-sorted t _
      ∙ elem-excess_from keep older_than now 0 ranked t (ranked-IsRanked h)
      ∙ any_congr _ _ ranked (All-of_forall _ ranked (λ c. rw (rule-ranked c)))
      ∙ any-sorted_by newest_first
          (λ c. (c.0 == t) && is_retention_excess keep older_than now protected kept c)
          (candidates protected kept)

length-excess_from :
    (keep : ℕ) (older_than : ℤ) (now rank : ℕ) (xs : List (String × ℕ))
    → length (excess_from (pos keep) older_than now rank xs) ≤ length xs - (keep - rank)
unfolding excess_from
length-excess_from keep older_than now rank [] = omega arith
length-excess_from keep older_than now rank (x ∷ xs) =
    ground (arith, length-excess_from keep older_than now (rank + 1) xs)

-- With `keep = n`, at least n unprotected tags, or all of them, are left unselected.
pub length-select_retention_excess :
    (kept : Dict String ℕ) (keep : ℕ) (older_than : ℤ) (now : ℕ) (protected : List String)
    → length (select_retention_excess kept (pos keep) older_than now protected)
      ≤ length (candidates protected kept) - keep
length-select_retention_excess kept keep older_than now protected =
    let found =
      excess_from (pos keep) older_than now 0
        (sorted_by newest_first (candidates protected kept)) in
    unfold select_retention_excess in
    omega (
      arith,
      length-sorted found,
      length-sorted_by newest_first (candidates protected kept),
      length-excess_from keep older_than now 0 (sorted_by newest_first (candidates protected kept)),
    )

any-candidates :
    (protected : List String) (kept : Dict String ℕ) (rule : String × ℕ → Bool) (t : String)
    → any (λ c. (c.0 == t) && rule c) (candidates protected kept) ≡ true
    → (has t kept ≡ true) × (elem t protected ≡ false)
unfolding candidates has elem
any-candidates protected [] rule t h = cc
any-candidates protected (c ∷ kept) rule t h =
    ground (arith, any-candidates protected kept rule t, eq_iff c.0 t)

-- Only tags of the dictionary are selected, and no protected one.
pub has_of_selected :
    (kept : Dict String ℕ) (keep older_than : ℤ) (now : ℕ) (protected : List String) (t : String)
    → IsDict kept
    → elem t (select_retention_excess kept keep older_than now protected) ≡ true
    → (has t kept ≡ true) × (elem t protected ≡ false)
has_of_selected kept keep older_than now protected t d h =
    any-candidates protected kept (is_retention_excess keep older_than now protected kept) t
      (sym (elem-select_retention_excess kept keep older_than now protected t d) ∙ h)

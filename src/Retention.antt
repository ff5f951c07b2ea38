-- ===== src/Retention.antt =====
-- knock/domain/retention.py. An instant is a number of microseconds, so `now - t` is an integer;
-- a dictionary of import times is iterated with its values.
pub mod Rank
pub mod Thresholds
use houba.Common.{
  ℕ, zero, suc, ◌+◌, String, Bool, true, false, not, ◌&&◌, ◌||◌, Option, none, some, List, [], ◌∷◌,
  ltb, leb, ◌==◌, if◌then◌else◌, filter,
}
use houba.Common.Int.{ℤ, pos, sub_ℕ, ltb_ℤ, leb_ℤ}
use houba.Common.Text.{str_leb}
use houba.Common.Eq.{elem, string_eq}
use houba.Common.Dict.{Dict, keys}
use houba.Common.Order.{sorted_by, sorted}

-- `Archive` of mirror_policy.py
pub record Archive : Type 0 where
  pub keep : Option ℤ
  pub older_than_days : Option ℤ

pub record ResolvedRetention : Type 0 where
  pub keep : ℤ
  pub older_than_days : ℤ

abbrev pub default_keep : ℤ
default_keep = pos 2

abbrev pub default_older_than_days : ℤ
default_older_than_days = pos 30

-- The `for level in (policy, global_)` loops: the first level that sets the field, else the default.
first_set : (Archive → Option ℤ) → List (Option Archive) → ℤ → ℤ
first_set field [] default = default
first_set field (none ∷ levels) default = first_set field levels default
first_set field (some level ∷ levels) default = elim (field level) [
  | none ↦ first_set field levels default
  | some value ↦ value
]

unfoldable pub resolve_archive : Option Archive → Option Archive → Option ResolvedRetention
unfolding first_set
resolve_archive none none = none
resolve_archive policy global =
    let levels : List (Option Archive) = policy ∷ global ∷ [] in
    some (record {
      keep = first_set (λ a. a.keep) levels default_keep;
      older_than_days = first_set (λ a. a.older_than_days) levels default_older_than_days;
    })

-- `(kept[t], t)` in descending order: `a` ranks at or before `b`.
pub newest_first : String × ℕ → String × ℕ → Bool
unfolding str_leb
newest_first a b = ltb b.1 a.1 || (b.1 == a.1 && str_leb b.0 a.0)

-- `(now - imported_at) > older_than`
unfoldable pub is_older : ℤ → ℕ → ℕ → Bool
is_older older_than now imported_at = ltb_ℤ older_than (sub_ℕ now imported_at)

-- The comprehension over `enumerate(ranked)`, from a rank on.
excess_from : ℤ → ℤ → ℕ → ℕ → List (String × ℕ) → List String
excess_from keep older_than now rank [] = []
excess_from keep older_than now rank ((t, imported_at) ∷ ranked) =
    let rest = excess_from keep older_than now (rank + 1) ranked in
    if leb_ℤ keep (pos rank) && is_older older_than now imported_at then t ∷ rest else rest

-- `[t for t in kept if t not in protected]`
pub candidates : List String → Dict String ℕ → List (String × ℕ)
unfolding elem
candidates protected kept = filter (λ c. not (elem c.0 protected)) kept

unfoldable pub select_retention_excess : Dict String ℕ → ℤ → ℤ → ℕ → List String → List String
unfolding excess_from is_older candidates newest_first sorted_by sorted
select_retention_excess kept keep older_than now protected =
    sorted (excess_from keep older_than now 0 (sorted_by newest_first (candidates protected kept)))

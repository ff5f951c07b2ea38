-- ===== src/Tests/RetentionTests.antt =====
-- Runs of knock/domain/retention.py.
use houba.Common.{ℕ, ◌≤◌, ◌-◌, String, ◌≡◌, refl, ◌&&◌, none, some, [], ◌∷◌, any, length, arith}
use houba.Common.Int.{pos}
use houba.Common.Text.{◌==◌}
use houba.Common.Eq.{elem, string_eq}
use houba.Common.Dict.{Dict}
use houba.Retention.{resolve_archive, candidates, select_retention_excess}
use houba.Retention.Rank.{
  is_retention_excess, elem-select_retention_excess, length-select_retention_excess,
}

abbrev import_times : Dict String ℕ
import_times = ("1.0", 10) ∷ ("1.2", 30) ∷ ("1.1", 20) ∷ ("0.9", 5) ∷ ("1.2b", 30) ∷ []

runs : select_retention_excess import_times (pos 2) (pos 50) 100 ("0.9" ∷ []) ≡ "1.0" ∷ "1.1" ∷ []
unfolding select_retention_excess
runs = refl

cascade_runs :
    resolve_archive
      (some (record { keep = none; older_than_days = some (pos 7) }))
      (some (record { keep = some (pos 5); older_than_days = some (pos 90) }))
    ≡ some (record { keep = pos 5; older_than_days = pos 7 })
unfolding resolve_archive
cascade_runs = refl

elem-select_retention_excess_example :
    elem "1.0" (select_retention_excess import_times (pos 2) (pos 50) 100 ("0.9" ∷ []))
    ≡ any
        (λ c.
          (c.0 == "1.0") && is_retention_excess (pos 2) (pos 50) 100 ("0.9" ∷ []) import_times c)
        (candidates ("0.9" ∷ []) import_times)
unfolding elem
elem-select_retention_excess_example =
    elem-select_retention_excess import_times (pos 2) (pos 50) 100 ("0.9" ∷ []) "1.0" (ground arith)

length-select_retention_excess_example :
    length (select_retention_excess import_times (pos 2) (pos 50) 100 ("0.9" ∷ []))
    ≤ length (candidates ("0.9" ∷ []) import_times) - 2
length-select_retention_excess_example =
    length-select_retention_excess import_times 2 (pos 50) 100 ("0.9" ∷ [])

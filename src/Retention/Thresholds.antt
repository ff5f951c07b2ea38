-- ===== src/Retention/Thresholds.antt =====
-- The cascade of thresholds: policy, then global, then the constants.
use houba.Common.{◌≡◌, refl, ◌↔◌, Option, none, some, arith}
use houba.Common.Int.{ℤ}
use houba.Retention.{
  Archive, ResolvedRetention, default_keep, default_older_than_days, resolve_archive,
}

-- What the cascade promises for one field.
abbrev pub resolved : Option ℤ → Option ℤ → ℤ → ℤ
resolved none none default = default
resolved none (some value) default = value
resolved (some value) _ default = value

abbrev pub field_of : (Archive → Option ℤ) → Option Archive → Option ℤ
field_of field none = none
field_of field (some a) = field a

abbrev pub expected : Option Archive → Option Archive → ResolvedRetention
expected policy global = record {
  keep = resolved (field_of (λ a. a.keep) policy) (field_of (λ a. a.keep) global) default_keep;
  older_than_days =
      resolved (field_of (λ a. a.older_than_days) policy) (field_of (λ a. a.older_than_days) global)
        default_older_than_days;
}

-- Retention is off exactly when neither the policy nor the fleet sets an archive block; when it is
-- on, each threshold on its own is the policy's value, else the global one, else the constant.
pub resolve_archive-cascade :
    (policy global : Option Archive)
    → ((resolve_archive policy global ≡ none) ↔ ((policy ≡ none) × (global ≡ none)))
      × ((r : ResolvedRetention)
          → resolve_archive policy global ≡ some r
          → r ≡ expected policy global)
unfolding resolve_archive
resolve_archive-cascade none none = (((λ h. (refl, refl)), (λ h. refl)), λ r h. cc)
resolve_archive-cascade none (some g) = (((λ h. cc), (λ h. cc (h.1))), λ r h. ground arith)
resolve_archive-cascade (some p) none = (((λ h. cc), (λ h. cc (h.0))), λ r h. ground arith)
resolve_archive-cascade (some p) (some g) = (((λ h. cc), (λ h. cc (h.0))), λ r h. ground arith)

-- ===== src/Reconcile.antt =====
-- knock/domain/reconcile.py: the plan for one import against the state of the mirror.
-- Instants are microseconds and a `timedelta` is an integer number of them. A `set` is a list
-- without repetitions, and what the code makes of it is sorted.
pub mod Import
pub mod Variants
pub mod Marks
pub mod Retained
pub mod Deletion
pub mod Converged
use houba.Common.{
  ℕ, String, Bool, true, false, not, ◌&&◌, ◌||◌, Option, none, some, List, [], ◌∷◌, ◌++◌, map,
  if◌then◌else◌, filter, is_some,
}
use houba.Common.Int.{ℤ, sub_ℕ, leb_ℤ, scale}
use houba.Common.Text.{◌==◌}
use houba.Common.Eq.{elem, add, add_all, string_eq}
use houba.Common.Dict.{Dict, keys, values, get, put}
use houba.Common.Order.{sorted}
use houba.Errors.{Result, ok, raise, key_error, ◌>>=◌}
use houba.Expand.{VariantPlan}
use houba.Common.Keys.{◌⊕◌}

pub record SourceArtifact : Type 0 where
  pub digest : String
  pub pushed_at : ℕ
  pub revision : Option String

pub record MirrorArtifact : Type 0 where
  pub base_digest : String
  pub transform_version : Option String
  pub imported_at : Option ℕ
  pub attested : Bool
  pub sbom_covered : Bool

pub data Decision : Type 0 where
  import_new update_old keep : Decision

-- `==` on `str | None`
abbrev pub same_version : Option String → Option String → Bool
same_version none none = true
same_version none (some w) = false
same_version (some v) none = false
same_version (some v) (some w) = v == w

-- `now - source.pushed_at >= grace`
unfoldable pub is_settled : ℕ → ℤ → ℕ → Bool
is_settled now grace pushed_at = leb_ℤ grace (sub_ℕ now pushed_at)

-- `_classify`
unfoldable pub classify : SourceArtifact → Option MirrorArtifact → ℕ → ℤ → Option String → Decision
classify source none now grace desired = import_new
classify source (some mirror) now grace desired =
    if not (same_version mirror.transform_version desired)
    then update_old
    else if not (mirror.base_digest == source.digest) && is_settled now grace source.pushed_at
    then update_old
    else keep

-- The four lists that the loop of `reconcile_variant` appends to.
pub record Buckets : Type 0 where
  pub to_import : List String
  pub to_update : List String
  pub to_sign : List String
  pub to_sbom : List String

abbrev pub empty_buckets : Buckets
empty_buckets = record { to_import = []; to_update = []; to_sign = []; to_sbom = [] }

-- A kept digest is backfilled, signature and SBOM on their own.
abbrev backfill : String → Option MirrorArtifact → Buckets → Buckets
backfill out none b = b
backfill out (some mirror) b = record b {
  to_sign = if mirror.attested then b.to_sign else b.to_sign ++ out ∷ [];
  to_sbom = if mirror.sbom_covered then b.to_sbom else b.to_sbom ++ out ∷ [];
}

abbrev place : Decision → String → Option MirrorArtifact → Buckets → Buckets
place import_new out mirror b = record b { to_import = b.to_import ++ out ∷ [] }
place update_old out mirror b = record b { to_update = b.to_update ++ out ∷ [] }
place keep out mirror b = backfill out mirror b

module _ (source : Dict String SourceArtifact) (mirror : Dict String MirrorArtifact) (now : ℕ)
    (grace : ℤ) (desired : Option String) (suffix : String) where
  -- One round of the loop over `plan.tags`, for a tag that is in the source state.
  reconcile_tag : String → SourceArtifact → Buckets → Buckets
  reconcile_tag tag src b =
      let mir = get (tag ⊕ suffix) mirror in
      place (classify src mir now grace desired) (tag ⊕ suffix) mir b

  reconcile_tags : List String → Buckets → Result Buckets
  reconcile_tags [] b = ok b
  reconcile_tags (tag ∷ tags) b = elim (get tag source) [
    | none ↦ raise key_error
    | some src ↦ reconcile_tags tags (reconcile_tag tag src b)
  ]

-- `{alias + plan.suffix: target + plan.suffix for alias, target in plan.aliases.items()}`
suffix_aliases : String → Dict String String → Dict String String → Dict String String
unfolding put
suffix_aliases suffix [] out = out
suffix_aliases suffix ((alias, target) ∷ rest) out =
    suffix_aliases suffix rest (put (alias ⊕ suffix) (target ⊕ suffix) out)

pub record VariantReconcile : Type 0 where
  pub variant : String
  pub buckets : Buckets
  pub open buckets use *
  pub aliases : Dict String String

unfoldable pub reconcile_variant :
    VariantPlan
    → Dict String SourceArtifact
    → Dict String MirrorArtifact
    → ℕ
    → ℤ
    → Option String
    → Result VariantReconcile
unfolding reconcile_tags reconcile_tag suffix_aliases classify get is_settled
reconcile_variant plan source mirror now grace desired = do
  b ← reconcile_tags source mirror now grace desired plan.suffix plan.tags empty_buckets
  ok (record {
    variant = plan.name;
    buckets = b;
    aliases = suffix_aliases plan.suffix plan.aliases [];
  })

-- ===== src/Selection/Exact.antt =====
-- Which tags `select_tags` returns, and in which order.
use houba.Common.{String, ◌≡◌, Bool, false, ◌&&◌, ◌||◌, List, [], ◌∷◌, arith, Bool-cases, inl, inr}
use houba.Common.Eq.{elem, add, elem-add, string_eq}
use houba.Common.Text.{eq_iff}
use houba.Common.Order.{IsSortedBy}
use houba.Policy.{TagSelection}
use houba.Semver.{sort_semver, at_or_before}
use houba.Semver.Sorted.{elem-sort_semver, sort_semver-IsSortedBy}
use houba.Selection.{is_selected, select_matching, select_names, select_tags}

module _ (search : String → String → Bool) where
  elem-select_matching :
      (tags : TagSelection) (k : String) (source_tags selected : List String)
      → elem k (select_matching search tags source_tags selected)
        ≡ (elem k selected || (is_selected search tags k && elem k source_tags))
  unfolding select_matching elem
  elem-select_matching tags k [] selected = ground arith
  elem-select_matching tags k (tag ∷ rest) selected =
      elim (Bool-cases (is_selected search tags tag)) [
        | inl e ↦ rw e (
            ground (
              arith,
              elem-select_matching tags k rest (add tag selected),
              elem-add tag k selected,
              eq_iff tag k,
              e,
            ))
        | inr e ↦ rw e (ground (arith, elem-select_matching tags k rest selected, eq_iff tag k, e))
      ]

  elem-select_names :
      (k : String) (source_set names selected : List String)
      → elem k (select_names search source_set names selected)
        ≡ (elem k selected || (elem k source_set && elem k names))
  unfolding select_names elem
  elem-select_names k source_set [] selected = ground arith
  elem-select_names k source_set (name ∷ names) selected =
      elim (Bool-cases (elem name source_set)) [
        | inl e ↦ rw e (
            ground (
              arith,
              elem-select_names k source_set names (add name selected),
              elem-add name k selected,
              eq_iff name k,
              e,
            ))
        | inr e ↦
            rw e (ground (arith, elem-select_names k source_set names selected, eq_iff name k, e))
      ]

  -- If listing a set keeps its members, an upstream tag is selected exactly when it is named
  -- explicitly or it passes every filter: the include pattern, none of the exclude patterns, and
  -- the test for a version; nothing is selected that upstream lacks. The tags come out in the
  -- order of the versions.
  pub select_tags-exact :
      (list_set : List String → List String)
      → ((k : String) (xs : List String) → elem k (list_set xs) ≡ elem k xs)
      → (tags : TagSelection) (source_tags : List String)
      → ((k : String)
          → elem k (select_tags search list_set tags source_tags)
            ≡ (elem k source_tags && (elem k tags.names || is_selected search tags k)))
        × IsSortedBy at_or_before (select_tags search list_set tags source_tags)
  unfolding select_tags elem
  select_tags-exact list_set keeps tags source_tags =
      (λ k. members k, sort_semver-IsSortedBy (list_set chosen))
    where
      chosen : List String
      chosen =
          select_names search source_tags tags.names (select_matching search tags source_tags [])

      members :
          (k : String)
          → elem k (sort_semver false (list_set chosen))
            ≡ (elem k source_tags && (elem k tags.names || is_selected search tags k))
      members k = ground (
        arith,
        elem-sort_semver false k (list_set chosen),
        keeps k chosen,
        elem-select_names k source_tags tags.names (select_matching search tags source_tags []),
        elem-select_matching tags k source_tags [],
      )

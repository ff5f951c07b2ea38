-- ===== src/Selection.antt =====
-- knock/domain/selection.py. The search of a regular expression is a parameter, and so is the
-- order in which Python lists a set: tags with equal keys come out in that order.
pub mod Exact
use houba.Common.{
  String, Bool, true, false, not, ◌&&◌, ◌||◌, Option, none, some, List, [], ◌∷◌, any, is_some,
  if◌then◌else◌,
}
use houba.Common.Chars.{is_empty}
use houba.Common.Eq.{elem, add, string_eq}
use houba.Policy.{TagSelection}
use houba.Semver.{parse_semver, sort_semver}

module _ (search : String → String → Bool) where
  -- `include is None or include.search(tag)`: an empty text is no pattern.
  included : Option String → String → Bool
  included none tag = true
  included (some pattern) tag = is_empty pattern || search pattern tag

  -- A tag that none of the `continue`s of the loop skips.
  pub is_selected : TagSelection → String → Bool
  unfolding included parse_semver
  is_selected tags tag =
      included tags.include_regex tag
      && not (any (λ pattern. search pattern tag) tags.exclude_regex)
      && (not tags.semver_only || is_some (parse_semver tag))

  select_matching : TagSelection → List String → List String → List String
  unfolding is_selected add
  select_matching tags [] selected = selected
  select_matching tags (tag ∷ source_tags) selected =
      select_matching tags source_tags (if is_selected tags tag then add tag selected else selected)

  select_names : List String → List String → List String → List String
  unfolding add elem
  select_names source_set [] selected = selected
  select_names source_set (name ∷ names) selected =
      select_names source_set names (if elem name source_set then add name selected else selected)

  unfoldable pub select_tags :
      (List String → List String) → TagSelection → List String → List String
  unfolding select_matching select_names sort_semver
  select_tags list_set tags source_tags =
      sort_semver false
        (list_set (select_names source_tags tags.names (select_matching tags source_tags [])))

-- ===== src/Tests/SelectionTests.antt =====
-- Runs of knock/domain/semver.py, knock/domain/selection.py,
-- knock/domain/aliases.py and knock/domain/expand.py.
use houba.Common.{String, ◌≡◌, refl, Bool, true, false, ◌&&◌, ◌||◌, none, some, List, [], ◌∷◌}
use houba.Common.Text.{◌==◌}
use houba.Common.Eq.{elem, string_eq}
use houba.Common.Order.{IsSortedBy}
use houba.Policy.{TagSelection}
use houba.Semver.{parse_semver, sort_semver, at_or_before}
use houba.Selection.{is_selected, select_tags}
use houba.Selection.Exact.{select_tags-exact}
use houba.Common.Dict.{Dict}
use houba.Common.{All, if◌then◌else◌}
use houba.Aliases.{resolve_aliases}
use houba.Aliases.Resolved.{IsPointed, resolve_aliases-IsPointed}
use houba.Common.{map}
use houba.Merge.{ResolvedImport, expand_variants}
use houba.Expand.{ExpandedImport, expand_import}
use houba.Expand.Total.{variant_of, IsPlanned, expand_import-IsPlanned}

partial_version : parse_semver " v3.4-rc.1 " ≡ some (record { major = 3; minor = 4; patch = 0 })
unfolding parse_semver
partial_version = refl

four_parts : parse_semver "1.2.3.4" ≡ none
unfolding parse_semver
four_parts = refl

empty_prerelease : parse_semver "1.2-" ≡ none
unfolding parse_semver
empty_prerelease = refl

abbrev upstream : List String
upstream = "latest" ∷ "1.10.0" ∷ "1.9.0" ∷ "1.9.0-rc1" ∷ "edge" ∷ "2.0.0" ∷ []

forward :
    sort_semver false upstream
    ≡ ("1.9.0-rc1" ∷ "1.9.0" ∷ "1.10.0" ∷ "2.0.0" ∷ "latest" ∷ "edge" ∷ [])
unfolding sort_semver
forward = refl

backward :
    sort_semver true upstream
    ≡ ("2.0.0" ∷ "1.10.0" ∷ "1.9.0" ∷ "1.9.0-rc1" ∷ "latest" ∷ "edge" ∷ [])
unfolding sort_semver
backward = refl

-- Every version but the major one, and a channel by its name.
abbrev tags : TagSelection
tags = record {
  include_regex = none;
  exclude_regex = "2.0.0" ∷ [];
  semver_only = true;
  names = "edge" ∷ "nightly" ∷ [];
  aliases = [];
  fields_set = [];
}

abbrev search : String → String → Bool
search pattern tag = pattern == tag

abbrev in_order : List String → List String
in_order xs = xs

chosen :
    select_tags search in_order tags upstream ≡ ("1.9.0-rc1" ∷ "1.9.0" ∷ "1.10.0" ∷ "edge" ∷ [])
unfolding select_tags
chosen = refl

select_tags-exact_example :
    ((k : String)
      → elem k (select_tags search in_order tags upstream)
        ≡ (elem k upstream && (elem k tags.names || is_selected search tags k)))
    × IsSortedBy at_or_before (select_tags search in_order tags upstream)
select_tags-exact_example = select_tags-exact search in_order (λ k xs. refl) tags upstream

abbrev templates : List String
templates = "latest" ∷ "v{major}" ∷ "{major}.{minor}" ∷ "{channel}-x" ∷ []

abbrev concrete : List String
concrete = "1.9.0-rc1" ∷ "1.9.0" ∷ "1.10.0" ∷ "edge" ∷ []

-- A pattern with one named group, which takes part in one tag.
abbrev captures : String → String → Dict String String
captures pattern tag = if tag == "edge" then ("channel", tag) ∷ [] else []

pointed :
    resolve_aliases captures templates concrete (some "(?P<channel>edge)")
    ≡ some (
        ("latest", "1.10.0")
        ∷ ("v1", "1.10.0")
        ∷ ("1.9", "1.9.0")
        ∷ ("1.10", "1.10.0")
        ∷ ("edge-x", "edge")
        ∷ [])
unfolding resolve_aliases
pointed = refl

resolve_aliases-IsPointed_example :
    (out : Dict String String) × (resolve_aliases captures templates concrete
        (some "(?P<channel>edge)")
      ≡ some out)
    × All (IsPointed captures templates concrete (some "(?P<channel>edge)")) out
resolve_aliases-IsPointed_example =
    resolve_aliases-IsPointed captures templates concrete (some "(?P<channel>edge)")

-- An import with two variants.
abbrev nginx : ResolvedImport
nginx = record {
  name = "nginx";
  tags = tags;
  destinations = none;
  transform = [];
  archive = none;
  platforms = none;
  variants = some (
      record { name = "plain"; suffix = ""; transform = none }
      ∷ record { name = "eu"; suffix = "-eu"; transform = none }
      ∷ []);
  owners = none;
  vendor = none;
}

expand_import-IsPlanned_example :
    (out : ExpandedImport) × (expand_import search captures in_order nginx upstream ≡ some out)
    × (map variant_of out.variants ≡ expand_variants nginx)
    × All (IsPlanned captures nginx (select_tags search in_order nginx.tags upstream)) out.variants
expand_import-IsPlanned_example = expand_import-IsPlanned search captures in_order nginx upstream

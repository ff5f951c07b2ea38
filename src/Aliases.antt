-- ===== src/Aliases.antt =====
-- knock/domain/aliases.py: the tags that move. The named groups that a regular expression captures
-- in a tag, none where it does not match, are a parameter; a group that took no part is left out.
pub mod Highest
pub mod Groups
pub mod Resolved
use Prim.Native.Char.{code}
use houba.Common.{
  ℕ, zero, suc, ◌+◌, ◌/◌, ◌%◌, String, Bool, true, false, ◌&&◌, ◌||◌, Option, none, some, List, ltb,
  leb, if◌then◌else◌, is_some,
}
use houba.Common.Tests.{◌==◌}
use houba.Common.Lists.{length}
use houba.Common.Chars.{codes, is_digit}
use houba.Common.Text.{str_leb, ◌==◌ as same_text}
use houba.Common.Eq.{string_eq}
use houba.Common.Dict.{Dict, get, put}
use houba.Common.Keys.{◌⊕◌}
use houba.Semver.{SemverParts, parse_semver, sort_semver}
use mathlib.Core.List
use Prim.Native.String.{[], ◌∷◌}

digit : ℕ → String
digit n =
    if n == 0
    then "0"
    else if n == 1
    then "1"
    else if n == 2
    then "2"
    else if n == 3
    then "3"
    else if n == 4
    then "4"
    else if n == 5
    then "5"
    else if n == 6
    then "6"
    else if n == 7
    then "7"
    else if n == 8
    then "8"
    else "9"

decimal_from : ℕ → ℕ → String
unfolding digit
decimal_from zero n = []
decimal_from (suc fuel) n = elim (ltb n 10) [
  | true ↦ digit n
  | false ↦ decimal_from fuel (n / 10) ⊕ digit (n % 10)
]

-- `str(n)`: a number has no more digits than its successor counts.
decimal : ℕ → String
unfolding decimal_from
decimal n = decimal_from (n + 1) n

-- `[a-zA-Z_]`
is_name_start : ℕ → Bool
is_name_start c = (leb b'a' c && leb c b'z') || (leb b'A' c && leb c b'Z') || c == b'_'

-- `[a-zA-Z0-9_]*\}`: the text before the brace.
name_rest : String → Option String
unfolding is_name_start
name_rest [] = none
name_rest (c ∷ s) =
    let later = name_rest s in
    if code c == b'}'
    then some []
    else if is_name_start (code c) || is_digit (code c)
    then elim later [ none ↦ none | some name ↦ some (c ∷ name) ]
    else none

-- What follows the opening brace of a placeholder: its name.
placeholder : String → Option String
unfolding name_rest is_name_start
placeholder [] = none
placeholder (c ∷ s) = if is_name_start (code c) then name_rest (c ∷ s) else none

part : (SemverParts → ℕ) → Option SemverParts → Option String
unfolding decimal
part field none = none
part field (some semver) = some (decimal (field semver))

-- `none` is `_Unfillable`.
fill : Option SemverParts → Dict String String → String → Option String
unfolding part get
fill semver captures name =
    if same_text name "major"
    then part (λ s. s.major) semver
    else if same_text name "minor"
    then part (λ s. s.minor) semver
    else if same_text name "patch"
    then part (λ s. s.patch) semver
    else get name captures

filled : Option String → Option String → Option String
filled (some value) (some rest) = some (value ⊕ rest)
filled value rest = none

-- `_PLACEHOLDER.sub(_sub, template)`, after the first `skipped` characters: those of a placeholder
-- that was replaced.
substitute : Option SemverParts → Dict String String → ℕ → String → Option String
unfolding placeholder fill filled
substitute semver captures skipped [] = some []
substitute semver captures (suc skipped) (c ∷ s) = substitute semver captures skipped s
substitute semver captures zero (c ∷ s) = elim (if code c == b'{' then placeholder s else none) [
  | none ↦ filled (some (c ∷ [])) (substitute semver captures 0 s)
  | some name ↦
      filled (fill semver captures name) (substitute semver captures (length (codes name) + 1) s)
]

max_from : String → List String → String
unfolding str_leb
max_from x List.[] = x
max_from x (List.◌∷◌ y ys) = max_from (if str_leb y x then x else y) ys

-- `by_semver[0]` if it is a version, else `max(tags)`; `none` is the error on an empty list.
first_or_max : List String → List String → Option String
unfolding parse_semver max_from
first_or_max (List.◌∷◌ first sorted) (List.◌∷◌ tag tags) =
    some (if is_some (parse_semver first) then first else max_from tag tags)
first_or_max sorted tags = none

pub highest : List String → Option String
unfolding first_or_max sort_semver
highest tags = first_or_max (sort_semver true tags) tags

-- `groups.setdefault(rendered, []).append(tag)`
group_members : Option (List String) → List String
group_members none = List.[]
group_members (some tags) = tags

join_group : Option String → String → Dict String (List String) → Dict String (List String)
unfolding group_members get put
join_group none tag groups = groups
join_group (some rendered) tag groups =
    put rendered (List.◌++◌ (group_members (get rendered groups)) (List.◌∷◌ tag List.[])) groups

pub group_all :
    (String → Option String) → List String → Dict String (List String) → Dict String (List String)
unfolding join_group
group_all render List.[] groups = groups
group_all render (List.◌∷◌ tag tags) groups =
    group_all render tags (join_group (render tag) tag groups)

point_all : Dict String (List String) → Dict String String → Option (Dict String String)
unfolding highest put
point_all List.[] aliases = some aliases
point_all (List.◌∷◌ (alias_name, tags) groups) aliases = elim (highest tags) [
  | none ↦ none
  | some target ↦ point_all groups (put alias_name target aliases)
]

module _ (captures_in : String → String → Dict String String) where
  captures_of : Option String → String → Dict String String
  captures_of none tag = List.[]
  captures_of (some include_regex) tag = captures_in include_regex tag

  pub render_template : String → String → Option String → Option String
  unfolding captures_of substitute parse_semver
  render_template template tag include_regex =
      substitute (parse_semver tag) (captures_of include_regex tag) 0 template

  -- The value that groups a tag: `latest` groups all tags.
  pub renders : String → Option String → String → Option String
  unfolding render_template
  renders template include_regex tag =
      if same_text template "latest"
      then some "latest"
      else render_template template tag include_regex

  groups_of : String → List String → Option String → Dict String (List String)
  unfolding group_all render_template
  groups_of template concrete_tags include_regex =
      let rendered =
        group_all (λ tag. render_template template tag include_regex) concrete_tags List.[] in
      if same_text template "latest" then latest concrete_tags else rendered
    where
      latest : List String → Dict String (List String)
      latest List.[] = List.[]
      latest (List.◌∷◌ tag tags) = List.◌∷◌ ("latest", List.◌∷◌ tag tags) List.[]

  resolve_from :
      List String → List String → Option String → Dict String String → Option (Dict String String)
  unfolding groups_of point_all
  resolve_from List.[] concrete_tags include_regex aliases = some aliases
  resolve_from (List.◌∷◌ template templates) concrete_tags include_regex aliases =
      elim (point_all (groups_of template concrete_tags include_regex) aliases) [
        | none ↦ none
        | some pointed ↦ resolve_from templates concrete_tags include_regex pointed
      ]

  unfoldable pub resolve_aliases :
      List String → List String → Option String → Option (Dict String String)
  unfolding resolve_from
  resolve_aliases templates concrete_tags include_regex =
      resolve_from templates concrete_tags include_regex List.[]

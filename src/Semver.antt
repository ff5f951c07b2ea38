-- ===== src/Semver.antt =====
-- knock/domain/semver.py: the pattern of a semantic version, its parts, and the sort of tags. The
-- pattern is read from left to right; after a digit run only a dot, a hyphen or the end can
-- follow, so that no choice is ever taken back. Digits and spaces are the ASCII ones.
pub mod Sorted
use Prim.Native.Char.{code}
use houba.Common.{
  ℕ, ◌+◌, ◌-◌, ◌*◌, String, Bool, true, false, not, ◌&&◌, ◌||◌, Option, none, some, List, ◌++◌, ltb,
  leb, ◌==◌, if◌then◌else◌, is_some, filter,
}
use mathlib.Core.Option
use Prim.Native.String.{[], ◌∷◌}
use houba.Common.Chars.{is_digit, is_empty, strip}
use houba.Common.Text.{str_leb}
use houba.Common.Order.{sorted_by}

-- The number that a run of digits spells after `n`, and the text behind it.
digits : ℕ → String → ℕ × String
digits n [] = (n, [])
digits n (c ∷ s) =
    let more = digits (n * 10 + (code c - b'0')) s in if is_digit (code c) then more else (n, c ∷ s)

-- `(\d+)`
number : String → Option (ℕ × String)
unfolding digits
number [] = none
number (c ∷ s) = if is_digit (code c) then some (digits 0 (c ∷ s)) else none

-- `(?:\.(\d+))?`, with `or 0`
dotted : String → ℕ × String
unfolding number
dotted [] = (0, [])
dotted (c ∷ s) = elim (number s) [
  | some read ↦ if code c == b'.' then read else (0, c ∷ s)
  | none ↦ (0, c ∷ s)
]

-- `[0-9A-Za-z.-]*`
all_prerelease : String → Bool
all_prerelease [] = true
all_prerelease (c ∷ s) =
    (is_digit (code c)
      || (leb b'A' (code c) && leb (code c) b'Z')
      || (leb b'a' (code c) && leb (code c) b'z')
      || code c == b'.'
      || code c == b'-')
    && all_prerelease s

-- `(?:-([0-9A-Za-z.-]+))?$`, with `or ""`
prerelease_end : String → Option String
unfolding all_prerelease
prerelease_end [] = some []
prerelease_end (c ∷ s) =
    if code c == b'-' && not (is_empty s) && all_prerelease s then some s else none

-- `v?`
skip_v : String → String
skip_v [] = []
skip_v (c ∷ s) = if code c == b'v' then s else c ∷ s

-- The groups of a match.
record MatchGroups : Type 0 where
  major : ℕ
  minor : ℕ
  patch : ℕ
  prerelease : String

match_parts : ℕ × String → Option MatchGroups
unfolding dotted prerelease_end
match_parts (major, rest) =
    let minor = dotted rest in
    let patch = dotted minor.1 in
    Option.map
      (λ prerelease. record {
        major = major;
        minor = minor.0;
        patch = patch.0;
        prerelease = prerelease;
      })
      (prerelease_end patch.1)

match_number : Option (ℕ × String) → Option MatchGroups
unfolding match_parts
match_number none = none
match_number (some read) = match_parts read

-- `_SEMVER_RE.match(value.strip())`
match_semver : String → Option MatchGroups
unfolding match_number number skip_v strip
match_semver value = match_number (number (skip_v (strip value)))

pub record SemverParts : Type 0 where
  pub major : ℕ
  pub minor : ℕ
  pub patch : ℕ

unfoldable pub parse_semver : String → Option SemverParts
unfolding match_semver
parse_semver value =
    Option.map (λ m. record { major = m.major; minor = m.minor; patch = m.patch })
      (match_semver value)

record SortKey : Type 0 where
  is_non_semver : ℕ
  major : ℕ
  minor : ℕ
  patch : ℕ
  prerelease_rank : ℕ
  prerelease : String

key_of_match : Option MatchGroups → SortKey
key_of_match none = record {
  is_non_semver = 1;
  major = 0;
  minor = 0;
  patch = 0;
  prerelease_rank = 1;
  prerelease = "";
}
key_of_match (some m) = record {
  is_non_semver = 0;
  major = m.major;
  minor = m.minor;
  patch = m.patch;
  prerelease_rank = if is_empty m.prerelease then 1 else 0;
  prerelease = m.prerelease;
}

semver_key : String → SortKey
unfolding key_of_match match_semver
semver_key value = key_of_match (match_semver value)

-- `(a, ...) <= (b, ...)`, where `later` compares what follows.
lex : ℕ → ℕ → Bool → Bool
lex a b later = ltb a b || (a == b && later)

-- The order of the dataclass: field by field.
key_leb : SortKey → SortKey → Bool
unfolding lex str_leb
key_leb a b = lex a.is_non_semver b.is_non_semver (
    lex a.major b.major (
      lex a.minor b.minor (
        lex a.patch b.patch
          (lex a.prerelease_rank b.prerelease_rank (str_leb a.prerelease b.prerelease)))))

-- `_key(v).is_non_semver == n`
pub ranks : ℕ → String → Bool
unfolding semver_key
ranks n v = (semver_key v).is_non_semver == n

unfoldable pub at_or_before : String → String → Bool
unfolding semver_key key_leb
at_or_before a b = key_leb (semver_key a) (semver_key b)

-- A reverse sort keeps the order of equal keys, as the forward one does.
unfoldable pub sort_semver : Bool → List String → List String
unfolding ranks at_or_before sorted_by
sort_semver reverse values =
    let semver = filter (ranks 0) values in
    let others = filter (ranks 1) values in
    sorted_by (λ a b. if reverse then at_or_before b a else at_or_before a b) semver ++ others

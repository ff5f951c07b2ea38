-- ===== src/Scan/Gc.antt =====
-- knock/domain/scan/gc.py: which scan results are superseded. `datetime.fromisoformat` is a
-- parameter, `none` for its `ValueError`; every timestamp is taken to carry its offset.
pub mod Groups
pub mod RoundTrip
use houba.Common.{ℕ, String, Bool, Option, none, some, List, [], ◌∷◌, ◌++◌, if◌then◌else◌}
use houba.Common.Int.{ℤ}
use houba.Common.Chars.{is_empty}
use houba.Common.Dict.{Dict, get, put, values}
use houba.Common.Eq.{string_eq, pair_eq}
use houba.Common.Keys.{◌⊕◌}
use houba.Common.Order.{sorted}
use houba.Retention.{select_retention_excess}
use houba.Session.{Referrer}

pub record ParsedReferrer : Type 0 where
  pub digest : String
  pub tool : String
  pub format : String
  pub timestamp : ℕ

abbrev pub Groups : Type 0
Groups = Dict (String × String) (Dict String ℕ)

-- `ann.get(key, "")`
abbrev pub get_or_empty : Option String → String
get_or_empty none = ""
get_or_empty (some value) = value

-- `groups.setdefault(key, {})`
abbrev pub or_new : Option (Dict String ℕ) → Dict String ℕ
or_new none = []
or_new (some group) = group

abbrev pub key_of : ParsedReferrer → String × String
key_of p = (p.tool, p.format)

-- `groups.setdefault((parsed.tool, parsed.format), {})[parsed.digest] = parsed.timestamp`
unfoldable pub file_under : ParsedReferrer → Groups → Groups
unfolding get put
file_under p groups =
    put (key_of p) (put p.digest p.timestamp (or_new (get (key_of p) groups))) groups

-- `collected.extend(...)` over `groups.values()`
unfoldable pub collect_from : List (Dict String ℕ) → ℤ → ℤ → ℕ → List String
collect_from [] keep older_than now = []
collect_from (kept ∷ rest) keep older_than now =
    select_retention_excess kept keep older_than now [] ++ collect_from rest keep older_than now

module _ (fromisoformat : String → Option ℕ) where
  -- `_parse`
  abbrev pub parsed_with : String → Referrer → Option String → Option ParsedReferrer
  parsed_with prefix referrer none = none
  parsed_with prefix referrer (some raw) = elim (fromisoformat raw) [
    | none ↦ none
    | some ts ↦ some (record {
      digest = referrer.digest;
      tool = get_or_empty (get (prefix ⊕ ".scan.tool") referrer.annotations);
      format = get_or_empty (get (prefix ⊕ ".scan.format") referrer.annotations);
      timestamp = ts;
    })
  ]

  unfoldable pub parse : String → Referrer → Option ParsedReferrer
  unfolding get
  parse prefix referrer =
      if is_empty prefix
      then none
      else parsed_with prefix referrer (get (prefix ⊕ ".scan.timestamp") referrer.annotations)

  abbrev pub file_parsed : Option ParsedReferrer → Groups → Groups
  file_parsed none groups = groups
  file_parsed (some p) groups = file_under p groups

  -- The loop over the referrers.
  unfoldable pub group_by : String → List Referrer → Groups → Groups
  unfolding file_under
  group_by prefix [] groups = groups
  group_by prefix (referrer ∷ referrers) groups =
      group_by prefix referrers (file_parsed (parse prefix referrer) groups)

  unfoldable pub select_superseded_referrers : List Referrer → ℤ → ℤ → ℕ → String → List String
  unfolding sorted collect_from select_retention_excess group_by parse
  select_superseded_referrers referrers keep older_than now prefix =
      sorted (collect_from (values (group_by prefix referrers [])) keep older_than now)

-- ===== src/Scan/Summary.antt =====
-- knock/domain/scan/summary.py: severities in order of rank, and the gate over a summary's counts.
pub mod Gate
use houba.Common.{
  ℕ, String, Bool, true, false, not, ◌&&◌, ◌||◌, Option, none, some, List, [], ◌∷◌, any, ◌==◌,
  if◌then◌else◌,
}
use houba.Common.Int.{ℤ, pos, ltb_ℤ}
use houba.Common.Dict.{Dict, get, put}
use houba.Common.Eq.{string_eq}
use houba.Common.Chars.{int_of, is_empty}
use houba.Common.Keys.{◌⊕◌}

pub data Severity : Type 0 where
  critical high medium low unknown : Severity

-- `s.value`
abbrev pub value : Severity → String
value critical = "critical"
value high = "high"
value medium = "medium"
value low = "low"
value unknown = "unknown"

-- `list(Severity)`, highest first
abbrev pub members : List Severity
members = critical ∷ high ∷ medium ∷ low ∷ unknown ∷ []

-- `members.index(s)`
abbrev pub index : Severity → ℕ
index critical = 0
index high = 1
index medium = 2
index low = 3
index unknown = 4

-- `_count`: a count that is no integer is 0.
unfoldable pub count : Option String → ℤ
unfolding int_of
count none = pos 0
count (some raw) = elim (int_of raw) [ none ↦ pos 0 | some n ↦ n ]

-- `members[: members.index(fail_on) + 1]`
abbrev pub up_to : Severity → List Severity → List Severity
up_to fail_on [] = []
up_to fail_on (s ∷ rest) =
    let more = up_to fail_on rest in if index s == index fail_on then s ∷ [] else s ∷ more

-- `at_or_above`, with `unknown` folded in at the two most permissive thresholds.
unfoldable pub at_or_above : Severity → List Severity
at_or_above low = unknown ∷ up_to low members
at_or_above fail_on = up_to fail_on members

abbrev pub bucket : Severity → String
bucket s = "vuln." ⊕ value s

-- `_count(facts.get(f"vuln.{s.value}")) > 0`
unfoldable pub has_findings : Dict String String → Severity → Bool
unfolding count get
has_findings facts s = ltb_ℤ (pos 0) (count (get (bucket s) facts))

unfoldable pub gate_breached : Dict String String → Severity → Bool
unfolding at_or_above has_findings
gate_breached facts fail_on = any (has_findings facts) (at_or_above fail_on)

pub record ScanSummary : Type 0 where
  pub tool : String
  pub tool_version : String
  pub facts : Dict String String

-- `if summary.tool_version:`
abbrev pub put_version : String → String → Dict String String → Dict String String
put_version prefix tool_version d =
    if is_empty tool_version then d else put (prefix ⊕ ".scan.tool.version") tool_version d

-- The loop over `summary.facts.items()`.
unfoldable pub put_facts : String → Dict String String → Dict String String → Dict String String
put_facts prefix [] d = d
put_facts prefix ((name, found) ∷ facts) d =
    put_facts prefix facts (put (prefix ⊕ (".scan." ⊕ name)) found d)

unfoldable pub build_scan_annotations :
    (ℕ → String) → ScanSummary → String → String → String → ℕ → Dict String String
build_scan_annotations isoformat summary prefix subject_digest fmt timestamp =
    if is_empty prefix
    then []
    else put_facts prefix summary.facts (
        put_version prefix summary.tool_version (
          (prefix ⊕ ".scan.tool", summary.tool)
          ∷ (prefix ⊕ ".scan.format", fmt)
          ∷ (prefix ⊕ ".scan.timestamp", isoformat timestamp)
          ∷ (prefix ⊕ ".scan.subject", subject_digest)
          ∷ []))

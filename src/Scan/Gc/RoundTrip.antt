-- ===== src/Scan/Gc/RoundTrip.antt =====
-- The collector reads what the scan wrote.
use Prim.Native.Char.{Char}
use houba.Common.{ℕ, String, ◌≡◌, refl, ap, ◌∙◌, false, Option, some, [], ◌∷◌, arith}
use houba.Common.Chars.{is_empty}
use houba.Common.Dict.{Dict, get, put, get-put, has}
use houba.Common.Eq.{elem, string_eq}
use houba.Common.Keys.{◌⊕◌, prefix_eq}
use houba.IsoTime.{IsoFormat}
use houba.Session.{Referrer}
use houba.Scan.Summary.{ScanSummary, put_version, put_facts, build_scan_annotations}
use houba.Scan.Gc.{parse, parsed_with}

-- A fact with another name does not touch the entry.
put_facts-get :
    (p name : String) (facts d : Dict String String)
    → has name facts ≡ false
    → get (p ⊕ (".scan." ⊕ name)) (put_facts p facts d) ≡ get (p ⊕ (".scan." ⊕ name)) d
unfolding put_facts has elem
put_facts-get p name [] d h = refl
put_facts-get p name ((k, v) ∷ facts) d h =
    let other : string_eq.beq (p ⊕ (".scan." ⊕ k)) (p ⊕ (".scan." ⊕ name)) ≡ false =
      prefix_eq p (".scan." ⊕ k) (".scan." ⊕ name) ∙ prefix_eq ".scan." k name ∙ ground arith in
    put_facts-get p name facts (put (p ⊕ (".scan." ⊕ k)) v d) (ground arith)
    ∙ get-put (p ⊕ (".scan." ⊕ k)) (p ⊕ (".scan." ⊕ name)) v d
    ∙ rw other

-- The facts do not use the names that the collector reads.
pub record AreSeparate (facts : Dict String String) : Type 0 where
  pub timestamp : has "timestamp" facts ≡ false
  pub tool : has "tool" facts ≡ false
  pub format : has "format" facts ≡ false

module _ (time : IsoFormat) where
  abbrev written : String → String → String → String → ℕ → Dict String String
  written p tool fmt subject t =
      (p ⊕ ".scan.tool", tool)
      ∷ (p ⊕ ".scan.format", fmt)
      ∷ (p ⊕ ".scan.timestamp", time.isoformat t)
      ∷ (p ⊕ ".scan.subject", subject)
      ∷ []

  -- The three entries that the collector reads.
  abbrev read : String → Dict String String → Option String × Option String × Option String
  read p d = (get (p ⊕ ".scan.timestamp") d, get (p ⊕ ".scan.tool") d, get (p ⊕ ".scan.format") d)

  read-written :
      (p tool version fmt subject : String) (t : ℕ)
      → read p (put_version p version (written p tool fmt subject t))
        ≡ (some (time.isoformat t), some tool, some fmt)
  unfolding get
  read-written p tool String.[] fmt subject t = simp prefix_eq
  read-written p tool (String.◌∷◌ c v) fmt subject t = simp (get-put, prefix_eq)

  read-build :
      (c : Char) (p : String) (summary : ScanSummary) (subject fmt : String) (t : ℕ)
      → AreSeparate summary.facts
      → read
          (String.◌∷◌ c p)
          (build_scan_annotations time.isoformat summary (String.◌∷◌ c p) subject fmt t)
        ≡ (some (time.isoformat t), some summary.tool, some fmt)
  unfolding build_scan_annotations
  read-build c p summary subject fmt t s =
      let q : String = String.◌∷◌ c p in
      let base = put_version q summary.tool_version (written q summary.tool fmt subject t) in
      (λ i. (
        put_facts-get q "timestamp" summary.facts base s.timestamp i,
        put_facts-get q "tool" summary.facts base s.tool i,
        put_facts-get q "format" summary.facts base s.format i,
      ))
      ∙ read-written q summary.tool summary.tool_version fmt subject t

  parsed_as :
      (prefix : String) (referrer : Referrer) (t : ℕ) (tool fmt : String)
      → is_empty prefix ≡ false
      → read prefix referrer.annotations ≡ (some (time.isoformat t), some tool, some fmt)
      → parse time.fromisoformat prefix referrer
        ≡ some (record { digest = referrer.digest; tool = tool; format = fmt; timestamp = t })
  unfolding parse
  parsed_as prefix referrer t tool fmt h e =
      rw (h, ap (λ x. x.0) e, parsed_with, time.reads_back t, ap (λ x. x.1) e, ap (λ x. x.2) e) refl

  -- Under a prefix, and when no fact is named after an entry of the header, the collector reads
  -- from a stored scan result the digest, the tool, the format and the instant that it was
  -- written with.
  pub parse-build_scan_annotations :
      (prefix : String) (summary : ScanSummary)
      (digest artifact_type subject subject_tag fmt : String) (t : ℕ)
      → is_empty prefix ≡ false
      → AreSeparate summary.facts
      → parse time.fromisoformat prefix (record {
        digest = digest;
        artifact_type = artifact_type;
        annotations = build_scan_annotations time.isoformat summary prefix subject fmt t;
        subject_tag = subject_tag;
      })
        ≡ some (record { digest = digest; tool = summary.tool; format = fmt; timestamp = t })
  parse-build_scan_annotations String.[] summary digest artifact_type subject subject_tag fmt t h
        s =
      cc
  parse-build_scan_annotations (String.◌∷◌ c p) summary digest artifact_type subject subject_tag fmt
        t h s =
      parsed_as (String.◌∷◌ c p) _ t summary.tool fmt refl (read-build c p summary subject fmt t s)

-- ===== src/Attestation.antt =====
-- knock/domain/attestation.py, knock/domain/scan/attestation.py and knock/domain/sbom.py: the
-- in-toto statements and the referrers of SBOMs. A predicate is kept as its record, before it is
-- written as JSON; the parser of JSON is a parameter, for which `none` is a `ValueError`.
use houba.Common.{String, Bool, Option, none, some, List, [], ◌∷◌, if◌then◌else◌}
use houba.Common.Chars.{is_empty}
use houba.Common.Text.{◌==◌}
use houba.Common.Keys.{◌⊕◌}
use houba.Common.Parts.{has_code, before, after}
use houba.Common.Dict.{Dict, put}
use houba.Common.Eq.{string_eq}
use houba.Errors.{Result, ok, raise, value_error, unknown_format_error, ◌>>=◌}
use houba.Policy.{Value}

pub record TransformStepFact : Type 0 where
  pub name : String
  pub params : Dict String Value

pub record TransformPredicate : Type 0 where
  pub policy : String
  pub import_name : String
  pub variant : String
  pub transformed : Bool
  pub source : String
  pub source_digest : String
  pub builder_id : String
  pub created : String
  pub transform_version : String
  pub steps : List TransformStepFact

pub record ScanPredicate : Type 0 where
  pub scanner_name : String
  pub scanner_version : String
  pub format : String
  pub summary : Dict String String
  pub report_digest : String
  pub attested_at : String
  pub builder_id : String

pub data Predicate : Type 0 where
  transform_predicate : TransformPredicate → Predicate
  scan_predicate : ScanPredicate → Predicate
  sbom_predicate : Value → Predicate

pub record Statement : Type 0 where
  pub subject_name : String
  -- The algorithm and the value of the subject's digest.
  pub subject_digest : String × String
  pub predicate_type : String
  pub predicate : Predicate

abbrev pub transform_predicate_type : String
transform_predicate_type = "https://knock.dev/predicate/transform/v1"

abbrev pub scan_predicate_type : String
scan_predicate_type = "https://knock.dev/predicate/scan/v1"

abbrev pub cosign_attestation_artifact_type : String
cosign_attestation_artifact_type = "application/vnd.dev.sigstore.bundle.v0.3+json"

-- `_subject_digest`: a digest without an algorithm is taken for SHA-256.
unfoldable pub subject_digest_of : String → String × String
unfolding has_code before after
subject_digest_of digest =
    if has_code b':' digest then (before b':' digest, after b':' digest) else ("sha256", digest)

unfoldable pub build_transform_statement : String → String → TransformPredicate → Statement
unfolding subject_digest_of
build_transform_statement subject_name subject_digest predicate = record {
  subject_name = subject_name;
  subject_digest = subject_digest_of subject_digest;
  predicate_type = transform_predicate_type;
  predicate = transform_predicate predicate;
}

unfoldable pub build_scan_statement : String → String → ScanPredicate → Statement
unfolding subject_digest_of
build_scan_statement subject_name subject_digest predicate = record {
  subject_name = subject_name;
  subject_digest = subject_digest_of subject_digest;
  predicate_type = scan_predicate_type;
  predicate = scan_predicate predicate;
}

-- `FORMAT_MEDIA_TYPES[fmt]`, and `media_type_for`
unfoldable pub media_type_for : String → Result String
media_type_for fmt =
    if fmt == "spdx-json"
    then ok "application/spdx+json"
    else if fmt == "cyclonedx-json"
    then ok "application/vnd.cyclonedx+json"
    else raise unknown_format_error

-- `SBOM_PREDICATE_TYPES[fmt]`
unfoldable pub sbom_predicate_type : String → Result String
sbom_predicate_type fmt =
    if fmt == "spdx-json"
    then ok "https://spdx.dev/Document"
    else if fmt == "cyclonedx-json"
    then ok "https://cyclonedx.org/bom"
    else raise unknown_format_error

-- `json.loads(content)`
abbrev pub or_value_error : Option Value → Result Value
or_value_error none = raise value_error
or_value_error (some document) = ok document

unfoldable pub build_sbom_statement :
    (String → Option Value) → String → String → String → String → Result Statement
unfolding sbom_predicate_type subject_digest_of
build_sbom_statement json_loads subject_name subject_digest fmt content = do
  predicate_type ← sbom_predicate_type fmt
  document ← or_value_error (json_loads content)
  ok (record {
    subject_name = subject_name;
    subject_digest = subject_digest_of subject_digest;
    predicate_type = predicate_type;
    predicate = sbom_predicate document;
  })

-- `timestamp` is written already.
unfoldable pub build_sbom_annotations :
    String → String → String → String → String → String → Dict String String
unfolding put
build_sbom_annotations prefix subject_digest fmt tool tool_version timestamp =
    let out : Dict String String =
      (prefix ⊕ ".sbom.tool", tool)
      ∷ (prefix ⊕ ".sbom.format", fmt)
      ∷ (prefix ⊕ ".sbom.timestamp", timestamp)
      ∷ (prefix ⊕ ".sbom.subject", subject_digest)
      ∷ [] in
    if is_empty prefix
    then []
    else if is_empty tool_version
    then out
    else put (prefix ⊕ ".sbom.tool.version") tool_version out

-- ===== src/Report.antt =====
-- knock/use_cases/report.py and `Counts` of knock/ports/reporter.py: the tree of reports and the
-- arithmetic over it, which reads only the kind and the error of an operation.
pub mod Totals
use houba.Common.{
  ℕ, ◌+◌, String, Bool, true, false, ◌&&◌, Option, none, some, List, [], ◌∷◌, ◌++◌, all, any,
  count_if, is_none, is_some, max, if◌then◌else◌,
}
use houba.Errors.{ErrorInfo}

pub data OperationKind : Type 0 where
  imported updated deleted aliased skipped marked attested sbom : OperationKind

-- `op.kind == kind`
abbrev pub same_kind : OperationKind → OperationKind → Bool
same_kind imported imported = true
same_kind updated updated = true
same_kind deleted deleted = true
same_kind aliased aliased = true
same_kind skipped skipped = true
same_kind marked marked = true
same_kind attested attested = true
same_kind sbom sbom = true
same_kind _ _ = false

pub record Counts : Type 0 where
  pub imported : ℕ
  pub updated : ℕ
  pub deleted : ℕ
  pub aliased : ℕ
  pub skipped : ℕ
  pub marked : ℕ
  pub attested : ℕ
  pub sbom : ℕ
  pub failed : ℕ

pub record Operation : Type 0 where
  pub kind : OperationKind
  pub out_tag : String
  pub src_tag : Option String
  pub digest : Option String
  pub applied : Bool
  pub error : Option ErrorInfo
  pub transform_steps : Option (List String)
  pub out_digest : Option String

pub data NodeStatus : Type 0 where
  ok_status partial_status failed_status : NodeStatus

pub record VariantReport : Type 0 where
  pub name : String
  pub suffix : String
  pub status : NodeStatus
  pub totals : Counts
  pub operations : List Operation

pub record TargetReport : Type 0 where
  pub dest_repo : String
  pub status : NodeStatus
  pub variants : List VariantReport
  pub operations : List Operation
  pub totals : Counts

pub record PolicyReport : Type 0 where
  pub name : String
  pub source : String
  pub status : NodeStatus
  pub error : Option ErrorInfo
  pub totals : Counts
  pub targets : List TargetReport

pub record RunReport : Type 0 where
  pub dry_run : Bool
  pub status : NodeStatus
  pub totals : Counts
  pub policies : List PolicyReport

abbrev pub succeeded : Operation → Bool
succeeded op = is_none op.error

unfoldable pub node_status : List Operation → NodeStatus
node_status operations =
    if all succeeded operations
    then ok_status
    else if any succeeded operations
    then partial_status
    else failed_status

abbrev is_failed : PolicyReport → Bool
is_failed p = elim p.status [ failed_status ↦ true | _ ↦ false ]

unfoldable pub failed_policies : RunReport → ℕ
failed_policies report = count_if is_failed report.policies

-- `n(kind)` of `counts_of`
abbrev pub n : OperationKind → List Operation → ℕ
n kind operations = count_if (λ op. succeeded op && same_kind op.kind kind) operations

unfoldable pub counts_of : List Operation → Counts
counts_of operations = record {
  imported = n imported operations;
  updated = n updated operations;
  deleted = n deleted operations;
  aliased = n aliased operations;
  skipped = n skipped operations;
  marked = n marked operations;
  attested = n attested operations;
  sbom = n sbom operations;
  failed = count_if (λ op. is_some op.error) operations;
}

-- `sum(field(c) for c in parts)`
abbrev pub sum_of : (Counts → ℕ) → List Counts → ℕ
sum_of field [] = 0
sum_of field (c ∷ parts) = field c + sum_of field parts

unfoldable pub merge_counts : List Counts → Counts
merge_counts parts = record {
  imported = sum_of (λ c. c.imported) parts;
  updated = sum_of (λ c. c.updated) parts;
  deleted = sum_of (λ c. c.deleted) parts;
  aliased = sum_of (λ c. c.aliased) parts;
  skipped = sum_of (λ c. c.skipped) parts;
  marked = sum_of (λ c. c.marked) parts;
  attested = sum_of (λ c. c.attested) parts;
  sbom = sum_of (λ c. c.sbom) parts;
  failed = sum_of (λ c. c.failed) parts;
}

abbrev pub with_code : Option ErrorInfo → List ℕ → List ℕ
with_code none codes = codes
with_code (some e) codes = e.exit_code ∷ codes

abbrev pub operation_codes : List Operation → List ℕ
operation_codes [] = []
operation_codes (op ∷ operations) = with_code op.error (operation_codes operations)

abbrev pub variant_codes : List VariantReport → List ℕ
variant_codes [] = []
variant_codes (v ∷ variants) = operation_codes v.operations ++ variant_codes variants

abbrev pub target_codes : List TargetReport → List ℕ
target_codes [] = []
target_codes (tgt ∷ targets) =
    variant_codes tgt.variants ++ operation_codes tgt.operations ++ target_codes targets

abbrev pub policy_codes : List PolicyReport → List ℕ
policy_codes [] = []
policy_codes (p ∷ policies) = with_code p.error (target_codes p.targets) ++ policy_codes policies

-- `max(codes) if codes else 0`
abbrev pub worst_of : List ℕ → ℕ
worst_of [] = 0
worst_of (code ∷ codes) = max code (worst_of codes)

unfoldable pub report_exit_code : RunReport → ℕ
report_exit_code report = worst_of (policy_codes report.policies)

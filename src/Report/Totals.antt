-- ===== src/Report/Totals.antt =====
-- The arithmetic of a report: totals, statuses and the exit code.
use houba.Common.{
  ℕ, suc, ◌+◌, ◌≡◌, refl, sym, ap, ◌∙◌, ◌↔◌, Bool, not, ◌&&◌, Option, none, some, List, [], ◌∷◌,
  ◌++◌, all, any, All, count_if, count_if-le-length, length, max, is_none, is_some, ◌==◌, arith,
  if◌then◌else◌,
}
use houba.Errors.{ErrorInfo, exit_code_for}
use houba.Errors.Codes.{exit_code_for-bounds}
use houba.Report.{
  OperationKind, imported, updated, deleted, aliased, skipped, marked, attested, sbom, same_kind,
  Counts, Operation, VariantReport, TargetReport, PolicyReport, RunReport, ok_status,
  partial_status, failed_status, succeeded, node_status, counts_of, merge_counts, with_code,
  operation_codes, variant_codes, target_codes, policy_codes, worst_of, report_exit_code,
}

abbrev pub total : Counts → ℕ
total c =
    c.imported + c.updated + c.deleted + c.aliased + c.skipped + c.marked + c.attested + c.sbom
    + c.failed

-- What an operation adds to the count of a kind, and to the failures.
abbrev share : Option ErrorInfo → OperationKind → OperationKind → ℕ
share error kind k = if is_none error && same_kind kind k then 1 else 0

one_share :
    (error : Option ErrorInfo) (kind : OperationKind)
    → share error kind imported
        + share error kind updated
        + share error kind deleted
        + share error kind aliased
        + share error kind skipped
        + share error kind marked
        + share error kind attested
        + share error kind sbom
        + (if is_some error then 1 else 0)
      ≡ 1
one_share (some e) kind = refl
one_share none imported = refl
one_share none _ = refl

one_kind :
    (op : Operation) (operations : List Operation)
    → total (counts_of (op ∷ operations)) ≡ suc (total (counts_of operations))
unfolding counts_of
one_kind op operations = omega (arith, one_share op.error op.kind)

-- Every operation is counted once: under its kind if it succeeded, as failed otherwise.
pub counts_of-total :
    (operations : List Operation) → total (counts_of operations) ≡ length operations
counts_of-total [] = unfold counts_of in refl
counts_of-total (op ∷ operations) =
    omega (arith, one_kind op operations, counts_of-total operations)

count_if-append :
    (p : Operation → Bool) (xs ys : List Operation)
    → count_if p (xs ++ ys) ≡ count_if p xs + (count_if p ys + 0)
count_if-append p [] ys = omega arith
count_if-append p (x ∷ xs) ys = omega (arith, count_if-append p xs ys)

-- The counts of a node are the merged counts of its parts.
pub counts_of-append :
    (xs ys : List Operation)
    → counts_of (xs ++ ys) ≡ merge_counts (counts_of xs ∷ counts_of ys ∷ [])
unfolding counts_of merge_counts
counts_of-append xs ys = simp count_if-append

all-succeeded :
    (operations : List Operation) → all succeeded operations ≡ ((counts_of operations).failed == 0)
unfolding counts_of
all-succeeded [] = refl
all-succeeded (op ∷ operations) = ground (arith, all-succeeded operations)

any-succeeded :
    (operations : List Operation)
    → any succeeded operations ≡ not ((counts_of operations).failed == length operations)
unfolding counts_of
any-succeeded [] = refl
any-succeeded (op ∷ operations) =
    ground (arith, any-succeeded operations, count_if-le-length (λ o. is_some o.error) operations)

-- The status of a node follows from its counts: ok without failures, failed if all operations
-- failed, partial in between.
pub node_status-counts :
    (operations : List Operation)
    → node_status operations ≡ (
        if (counts_of operations).failed == 0
        then ok_status
        else if (counts_of operations).failed == length operations
        then failed_status
        else partial_status)
unfolding node_status
node_status-counts operations = ground (arith, all-succeeded operations, any-succeeded operations)

-- The errors of a run: those of its policies and those of all operations.
abbrev error_list : Option ErrorInfo → List ErrorInfo
error_list none = []
error_list (some e) = e ∷ []

abbrev operation_errors : List Operation → List ErrorInfo
operation_errors [] = []
operation_errors (op ∷ operations) = error_list op.error ++ operation_errors operations

abbrev variant_errors : List VariantReport → List ErrorInfo
variant_errors [] = []
variant_errors (v ∷ variants) = operation_errors v.operations ++ variant_errors variants

abbrev target_errors : List TargetReport → List ErrorInfo
target_errors [] = []
target_errors (t ∷ targets) =
    variant_errors t.variants ++ operation_errors t.operations ++ target_errors targets

abbrev policy_errors : List PolicyReport → List ErrorInfo
policy_errors [] = []
policy_errors (p ∷ policies) =
    error_list p.error ++ target_errors p.targets ++ policy_errors policies

-- The greatest exit code among errors, 0 if there are none.
abbrev worst : List ErrorInfo → ℕ
worst [] = 0
worst (e ∷ errors) = max e.exit_code (worst errors)

worst_of-append : (xs ys : List ℕ) → worst_of (xs ++ ys) ≡ max (worst_of xs) (worst_of ys)
worst_of-append [] ys = omega arith
worst_of-append (x ∷ xs) ys = omega (arith, worst_of-append xs ys)

worst-append : (xs ys : List ErrorInfo) → worst (xs ++ ys) ≡ max (worst xs) (worst ys)
worst-append [] ys = omega arith
worst-append (x ∷ xs) ys = omega (arith, worst-append xs ys)

worst_of-with_code :
    (error : Option ErrorInfo) (codes : List ℕ)
    → worst_of (with_code error codes) ≡ max (worst (error_list error)) (worst_of codes)
worst_of-with_code none codes = omega arith
worst_of-with_code (some e) codes = omega arith

operation_codes-worst :
    (operations : List Operation)
    → worst_of (operation_codes operations) ≡ worst (operation_errors operations)
operation_codes-worst [] = refl
operation_codes-worst (op ∷ operations) = omega (
  arith,
  worst_of-with_code op.error (operation_codes operations),
  worst-append (error_list op.error) (operation_errors operations),
  operation_codes-worst operations,
)

variant_codes-worst :
    (variants : List VariantReport)
    → worst_of (variant_codes variants) ≡ worst (variant_errors variants)
variant_codes-worst [] = refl
variant_codes-worst (v ∷ variants) = omega (
  arith,
  worst_of-append (operation_codes v.operations) (variant_codes variants),
  worst-append (operation_errors v.operations) (variant_errors variants),
  operation_codes-worst v.operations,
  variant_codes-worst variants,
)

target_codes-worst :
    (targets : List TargetReport) → worst_of (target_codes targets) ≡ worst (target_errors targets)
target_codes-worst [] = refl
target_codes-worst (t ∷ targets) = omega (
  arith,
  worst_of-append (variant_codes t.variants ++ operation_codes t.operations) (target_codes targets),
  worst_of-append (variant_codes t.variants) (operation_codes t.operations),
  worst-append (variant_errors t.variants ++ operation_errors t.operations) (target_errors targets),
  worst-append (variant_errors t.variants) (operation_errors t.operations),
  variant_codes-worst t.variants,
  operation_codes-worst t.operations,
  target_codes-worst targets,
)

policy_codes-worst :
    (policies : List PolicyReport)
    → worst_of (policy_codes policies) ≡ worst (policy_errors policies)
policy_codes-worst [] = refl
policy_codes-worst (p ∷ policies) = omega (
  arith,
  worst_of-append (with_code p.error (target_codes p.targets)) (policy_codes policies),
  worst_of-with_code p.error (target_codes p.targets),
  worst-append (error_list p.error ++ target_errors p.targets) (policy_errors policies),
  worst-append (error_list p.error) (target_errors p.targets),
  target_codes-worst p.targets,
  policy_codes-worst policies,
)

-- The error carries the exit code of its class, as `_err` gives it.
abbrev pub IsCoded : ErrorInfo → Type 0
IsCoded e = e.exit_code ≡ exit_code_for e.type

worst_zero : (errors : List ErrorInfo) → All IsCoded errors → worst errors ≡ 0 → errors ≡ []
worst_zero [] h z = refl
worst_zero (e ∷ errors) h z = absurd (omega (arith, h.0, (exit_code_for-bounds e.type).0))

-- The errors of a run, of its policies and of all their operations.
abbrev pub run_errors : RunReport → List ErrorInfo
run_errors report = policy_errors report.policies

-- A run whose errors carry the codes of their classes exits with 0 exactly when no policy and no
-- operation at any level failed.
pub report_exit_code_zero :
    (report : RunReport)
    → All IsCoded (run_errors report)
    → (report_exit_code report ≡ 0) ↔ (run_errors report ≡ [])
unfolding report_exit_code
report_exit_code_zero report h = (
  λ z. worst_zero (run_errors report) h (sym (policy_codes-worst report.policies) ∙ z),
  λ e. policy_codes-worst report.policies ∙ ap worst e,
)

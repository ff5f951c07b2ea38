-- ===== src/Tests/ReportTests.antt =====
-- Runs of knock/use_cases/report.py and knock/domain/collision.py.
use houba.Common.{String, ◌≡◌, ◌↔◌, refl, true, false, none, some, List, [], ◌∷◌}
use houba.Errors.{regctl_error, is_ok}
use houba.Report.{
  imported, deleted, Operation, RunReport, partial_status, counts_of, report_exit_code,
}
use houba.Report.Totals.{run_errors, report_exit_code_zero}
use houba.Common.Eq.{elem}
use houba.Collision.{AliasTarget, detect_alias_collisions, detect_dest_repo_collisions}
use houba.Collision.Aliases.{detect_alias_collisions-distinct}
use houba.Collision.Owners.{IsSingleOwner, detect_dest_repo_collisions_iff}
use houba.Errors.{exit_code_for}

abbrev copied : Operation
copied = record {
  kind = imported;
  out_tag = "1.0";
  src_tag = some "1.0";
  digest = some "sha256:a";
  applied = true;
  error = none;
  transform_steps = none;
  out_digest = some "sha256:b";
}

abbrev broken : Operation
broken = record {
  kind = deleted;
  out_tag = "0.9";
  applied = false;
  error = some (record { type = regctl_error; exit_code = 2 });
  src_tag = none;
  digest = none;
  transform_steps = none;
  out_digest = none;
}

abbrev operations : List Operation
operations = copied ∷ broken ∷ []

abbrev report : RunReport
report = record {
  dry_run = false;
  status = partial_status;
  totals = counts_of operations;
  policies =
      record {
        name = "nginx";
        source = "docker.io/library/nginx";
        status = partial_status;
        error = none;
        totals = counts_of operations;
        targets =
            record {
              dest_repo = "harbor/acme/nginx";
              status = partial_status;
              variants = [];
              operations = operations;
              totals = counts_of operations;
            }
            ∷ [];
      }
      ∷ [];
}

report_exit_code_zero_example : (report_exit_code report ≡ 0) ↔ (run_errors report ≡ [])
unfolding exit_code_for
report_exit_code_zero_example = report_exit_code_zero report (refl, tt)

abbrev entries : List AliasTarget
entries =
    record { dest_repo = "a"; alias = "latest"; target = "1.0" }
    ∷ record { dest_repo = "b"; alias = "latest"; target = "1.0" }
    ∷ record { dest_repo = "a"; alias = "latest"; target = "1.1" }
    ∷ []

detect_alias_collisions-distinct_example : is_ok (detect_alias_collisions entries) ≡ false
unfolding elem
detect_alias_collisions-distinct_example = detect_alias_collisions-distinct entries

abbrev owners : List (String × String)
owners = ("a", "p") ∷ ("b", "q") ∷ ("a", "p") ∷ []

detect_dest_repo_collisions_iff_example :
    (is_ok (detect_dest_repo_collisions owners) ≡ true) ↔ IsSingleOwner owners
detect_dest_repo_collisions_iff_example = detect_dest_repo_collisions_iff owners

-- ===== src/Lib.antt =====
-- knock (the package `knock/`) is a single front door for container images: operators declare
-- mirror policies, and knock reconciles a destination registry with them, stamps what it places,
-- scans, verifies, and cleans up what fell out of a policy. `knock/domain` is pure,
-- `knock/use_cases` drives the ports of `knock/ports`, and `knock/adapters` and `knock/cli` are
-- the edges.
--
-- How the parts interact: a policy is parsed and checked (Policy), its defaults are merged into
-- its imports (Merge), an import selects its tags and points its aliases at them (Semver,
-- Selection, Aliases, Expand) and is planned per variant against what the source and the mirror
-- hold (Reconcile, Retention), and what fell out is marked (Lifecycle). Apply carries such a plan
-- out: it reads both registries, copies or rebuilds (Transforms), stamps, describes and signs
-- (Attestation) what is new, moves aliases, deletes or marks, and reports. Planner makes the
-- plans of a batch of policies and has each of them applied, and its driver checks who owns a
-- repository or an alias, first across all policies and planners (Collision, Sharding). A skill
-- is packaged by Packaging. The reaper reads the marks back, asks a usage oracle and deletes
-- (Purge); the collector deletes superseded scan results (Gc); both walk the registries by
-- Session. Stamp writes and reads the provenance, Scan and Verify judge severities, Report sums
-- up a run, Errors turns failures into exit codes.
--
-- Which file models which code, by the function names of the source, lower-cased where Python has
-- a leading underscore:
-- - Errors: `knock/errors.py`; a call that may raise is a `Result`, and `◌>>=◌` runs the rest of
--   a body only after a call that returned. The classes of exceptions are one data type.
-- - Policy, Policy/Rules: `knock/domain/mirror_policy.py`, the model and the rules across fields.
--   Merge: `knock/domain/policy_merge.py` and `knock/domain/variants.py`. Expand:
--   `knock/domain/expand.py`.
-- - Retention: `knock/domain/retention.py`. Reconcile: `reconcile_variant` of
--   `knock/domain/reconcile.py`; Reconcile/Import: `reconcile_import`.
-- - Lifecycle: `knock/domain/lifecycle.py`. IsoTime: `datetime.isoformat` and
--   `datetime.fromisoformat`, as a record of two functions and the laws that the code relies on;
--   IsoTime/Unary is one such record.
-- - Stamp: `knock/domain/stamp.py` and `knock/domain/coverage.py`.
-- - Scan/Summary, Scan/Refs, Scan/Gc: `knock/domain/scan/summary.py`, `refs.py` and `gc.py`.
--   Verify: `knock/domain/verify.py`.
-- - Config: the registry roster of `knock/config.py`; Config/Match: `match_registry_by_host`.
--   Session: `knock/ports/registry.py`, `knock/ports/usage_oracle.py` and
--   `knock/use_cases/registry_session.py`. Purge: `knock/domain/purge.py` and
--   `knock/use_cases/purge.py`. Gc: `knock/use_cases/gc.py`. Audit: `knock/use_cases/audit.py`.
-- - Semver: `knock/domain/semver.py`. Selection: `knock/domain/selection.py`; the search of a
--   regular expression and the order in which a set is listed are parameters. Aliases:
--   `knock/domain/aliases.py`; the named groups that a pattern captures are a parameter.
-- - Transforms: `knock/domain/transforms/base.py`, `steps.py`, `registry.py` and `render.py`;
--   Transforms/Resolve: `_resolve_ref` and `_resolve_transform` of
--   `knock/use_cases/reconcile_registry.py`. Attestation: `knock/domain/attestation.py`,
--   `knock/domain/scan/attestation.py` and `knock/domain/sbom.py`.
-- - Apply: `knock/use_cases/reconcile_registry.py`, from `_apply_plan` and its helpers.
--   Apply/Probe reads the registries, Apply/Operations and Apply/Operations/Placing have one
--   function per nested `_do_…`, Apply/Stages the work lists and the report, Apply/Run the whole
--   `_apply_plan`. Session/Edges has the ports that it writes by. Apply/Run/Permitted is about
--   the calls of a run, Apply/Run/Returns about its outcome. Planner is `RegistryPlanner` of the
--   same file, `plan` in Planner and `apply` in Planner/Application; Planner/Driver is
--   `knock/use_cases/reconcile.py` over the interface of `knock/use_cases/policy_planner.py`,
--   with the laws that the driver relies on in Planner/Driver/Phases.
-- - Packaging: `knock/domain/packaging.py`, with `posixpath.normpath`; Packaging/Members is about
--   the paths, Packaging/Distinct about collisions, Packaging/Planned about the whole plan.
-- - Collision: `knock/domain/collision.py`. Sharding: `knock/domain/sharding.py` and
--   `knock/domain/deletion_mode.py`. Report: `knock/use_cases/report.py`.
--
-- State: a `dict` is a list of entries in order of insertion (Common/Dict), a `set` is a list
-- without repetitions that is read by membership or sorted (Common/Eq), an instant is a number of
-- microseconds and a `timedelta` an integer of them, and Python's unbounded `int` is the integer
-- type of Common/Int. The registry and the oracle are parameters: what they answer, failures
-- included, may depend on the whole history of calls, and a run is a function from that history
-- to its outcome and the longer history. So the theorems about Apply, Purge and Gc hold for every
-- registry, however it fails or changes between two calls. `_run_stage` is modelled without an
-- executor, where it runs its items in order; the reporter's calls are in the history and return.
--
-- Loops run over lists and are structural recursions; no fuel is used. Texts are lists of
-- characters read by their code points; `strip`, `split` and `int` are modelled for ASCII texts.
--
-- Not modelled: the YAML parser and Pydantic, the thread pool, the git planner and intake (the
-- driver's list of planners is a parameter), the settings of the destination that the SBOM
-- generator is given, the temporary directory of a build (a request for a build carries the files
-- themselves), JSON and the reading of files (parameters of Attestation, Apply and Transforms),
-- SHA-256 (a parameter of Sharding and Transforms), the subprocesses of the adapters, Redis, the
-- command line, logging, and the texts of messages. A timestamp of a scan result is taken to
-- carry its offset.
pub mod Common
pub mod Errors
pub mod Retention
pub mod Policy
pub mod Expand
pub mod Reconcile
pub mod Scan
pub mod Verify
pub mod IsoTime
pub mod Lifecycle
pub mod Stamp
pub mod Config
pub mod Session
pub mod Purge
pub mod Gc
pub mod Collision
pub mod Report
pub mod Merge
pub mod Selection
pub mod Semver
pub mod Sharding
pub mod Aliases
pub mod Audit
pub mod Transforms
pub mod Attestation
pub mod Apply
pub mod Planner
pub mod Packaging
mod Tests

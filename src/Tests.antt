-- ===== src/Tests.antt =====
-- Runs of the model on concrete inputs, and each theorem with hypotheses at such an input.
mod RetentionTests
mod ReconcileTests
mod VerifyTests
mod StampTests
mod PurgeTests
mod ReportTests
mod PolicyTests
mod SelectionTests
mod AuditTests
mod ApplyTests
mod PlannerTests
mod PackagingTests

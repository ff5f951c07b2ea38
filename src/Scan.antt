-- ===== src/Scan.antt =====
-- knock/domain/scan: the severity gate, the facts of a scan and which scan referrers to collect.
pub mod Refs
pub mod Gc
pub mod Summary

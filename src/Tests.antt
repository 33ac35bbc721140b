-- ===== src/Tests.antt =====
-- The theorems at concrete inputs.
mod Ledger
mod Plane
mod Firewall
mod Runtime
mod Solver
mod Policy

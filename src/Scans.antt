-- ===== src/Scans.antt =====
-- The execution of scans: src/orgscan/runner.py, with the identities of src/orgscan/services/
-- correlation.py and the evidence of src/orgscan/repositories.py.
pub mod Correlation
pub mod Evidence
pub mod Persist
pub mod Runner

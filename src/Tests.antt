-- ===== src/Tests.antt =====
-- Runs of the modelled functions at concrete inputs.
mod Values
mod Admission
mod Outputs
mod Scrapes
mod Plans
mod Elections
mod Servers
mod Reconciled
mod Reports

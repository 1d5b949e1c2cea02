-- ===== src/Tests.antt =====
-- Concrete inputs and the theorems applied to them.
mod Samples
mod Records
mod Audits
mod Imports
mod Natives
mod Policies
mod Configs
mod Packages

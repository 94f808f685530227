-- ===== src/Tests.antt =====
-- Runs on concrete inputs, and the theorems of the development at concrete inputs.
mod Texts
mod Orderings
mod Batches
mod Jobs
mod Limits
mod Api
mod Parallel
mod Configs
mod Dashboard
mod Repositories

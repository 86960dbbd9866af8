-- ===== src/Tests.antt =====
-- The theorems at concrete inputs.
mod Uris
mod Simulators
mod Algorithms
mod Functions
mod Executions
mod Systems
mod Pools
mod Samples
mod Scenarios
mod Caches
mod Lookups
mod Injections
mod Values

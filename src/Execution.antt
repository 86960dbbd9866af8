-- ===== src/Execution.antt =====
-- include/cosim/execution.hpp and src/cosim/execution.cpp: a co-simulation and its components.
pub mod Defs
pub mod Step
pub mod Steps
pub mod Initial
pub mod Connections
pub mod Runs
pub mod Ids
pub mod Injection

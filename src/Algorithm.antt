-- ===== src/Algorithm.antt =====
-- src/cosim/algorithm/fixed_step_algorithm.cpp: simulators and functions stepped at multiples of a
-- base step, with variables carried along connections between them.
pub mod Lcm
pub mod Defs
pub mod Step
pub mod Schedule
pub mod Connections
pub mod Factors
pub mod Transfers
pub mod Changes
pub mod Reach
